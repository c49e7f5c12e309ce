-- ===== src/Perm.antt =====
-- backend/internal/platform/perm/catalog.go: the catalogue of rights, the matrix of the four staff
-- roles, and the grants that a session gets from its role.
pub mod Laws
pub mod Matrix
pub mod Tests
use wf_all.Prelude.{
  Bool, true, false, not, ◌&&◌, ◌||◌, List, [], ◌∷◌, ◌++◌, Option, none, some, String, str_eq,
  if◌then◌else◌, any, map,
}
use wf_all.Auth.{Grant, deny, allow, scoped, dual, Role, owner, admin, moderator, support, other}

pub record Permission : Type 0 where
  pub key : String
  pub title : String
  pub mutating : Bool
  pub city_bound : Bool
  pub is_draft : Bool

-- A row of the matrix: the permission, and one value for each role in the order of `Roles`.
pub record Row : Type 0 where
  pub p : Permission
  pub for_owner : Grant
  pub for_admin : Grant
  pub for_moderator : Grant
  pub for_support : Grant

new_row : Bool → String → String → Grant → Grant → Grant → Grant → Row
new_row changes key title o a m s = record {
  p = record { key = key; title = title; mutating = changes; city_bound = false; is_draft = false };
  for_owner = o;
  for_admin = a;
  for_moderator = m;
  for_support = s;
}

reading : String → String → Grant → Grant → Grant → Grant → Row
unfolding new_row
reading = new_row false

changing : String → String → Grant → Grant → Grant → Grant → Row
unfolding new_row
changing = new_row true

city : Row → Row
city r = record r { p = record (r.p) { city_bound = true } }

draft : Row → Row
draft r = record r { p = record (r.p) { is_draft = true } }

unfoldable pub rows : List Row
unfolding reading changing city draft
rows =
    reading "staff.roles.read" "матрица ролей и прав" allow allow allow allow
    ∷ reading "staff.accounts.read" "список сотрудников и карточка" allow allow deny deny
    ∷ changing "staff.roles.grant_elevated" "выдать роль владельца или админа" dual deny deny deny
    ∷ changing "staff.roles.grant" "выдать роль модератора или поддержки, добавить модератору город"
        dual dual deny deny
    ∷ changing "staff.roles.revoke_owner" "снять владельца (выключить учётку)" dual deny deny deny
    ∷ changing "staff.roles.revoke_admin" "снять админа (выключить учётку)" allow deny deny deny
    ∷ changing "staff.roles.revoke" "снять модератора или поддержку, убрать модератору город" allow
        allow deny deny
    ∷ changing "staff.access.reset_elevated" "сбросить доступ владельцу или админу" dual deny deny
        deny
    ∷ changing "staff.access.reset" "сбросить доступ модератору или поддержке" dual dual deny deny
    ∷ changing "staff.invites.resend" "отправить приглашение повторно" allow allow deny deny
    ∷ changing "staff.sessions.revoke"
        "завершить чужие сессии (админ — только модераторов и поддержки)" allow allow deny deny
    ∷ city (
        reading "audit.log.read" "читать журнал действий (модератор — свои города и свои записи)"
          allow allow scoped allow)
    ∷ reading "geo.places.search" "искать места GeoNames" allow allow deny deny
    ∷ city (reading "geo.cities.read" "города и районы" allow allow scoped allow)
    ∷ changing "geo.cities.activate" "открыть город" allow allow deny deny
    ∷ city (
        changing "geo.cities.manage" "статус, slug и привязка geoname_id города" allow allow deny
          deny)
    ∷ city (changing "geo.cities.rename" "названия города по языкам" allow allow scoped deny)
    ∷ city (changing "geo.districts.manage" "районы города" allow allow scoped deny)
    ∷ reading "geo.countries.read" "страны и их правила" allow allow allow allow
    ∷ changing "geo.countries.manage" "правила страны и её включение" allow allow deny deny
    ∷ reading "geo.imports.read" "журнал импорта GeoNames" allow allow deny allow
    ∷ changing "geo.imports.run" "запустить импорт GeoNames" allow allow deny deny
    ∷ reading "platform.versions.read" "версии приложения" allow allow allow allow
    ∷ changing "platform.versions.manage" "минимальная и рекомендуемая версия, ссылка на стор" allow
        allow deny deny
    ∷ reading "platform.flags.read" "флаги функций" allow allow allow allow
    ∷ changing "platform.flags.manage" "переключать флаги функций по городам" allow allow deny deny
    ∷ draft (
        city (
          changing "teams.captains.approve" "одобрять заявки на капитанство" allow allow scoped
            deny))
    ∷ draft (
        city (
          changing "pitches.pitches.moderate" "публиковать и объединять площадки" allow allow scoped
            deny))
    ∷ draft
        (city (reading "moderation.reports.read" "читать жалобы и споры" allow allow scoped allow))
    ∷ draft (
        city (
          changing "moderation.reports.resolve" "решать жалобы и споры с формулировкой" allow allow
            scoped deny))
    ∷ draft (
        city (
          changing "moderation.restrictions.apply" "накладывать ограничения до 30 дней" allow allow
            scoped deny))
    ∷ draft (changing "moderation.bans.issue" "блокировать навсегда, без срока" dual dual deny deny)
    ∷ draft (
        city (
          changing "results.reports.annul" "аннулировать протокол матча (снятие голов у всех)" dual
            dual deny deny))
    ∷ draft (
        city (
          reading "identity.pii.read" "видеть почту и телефон игрока (каждое чтение — в журнал)"
            allow allow scoped allow))
    ∷ draft (
        changing "economy.catalog.manage" "каталог косметики, подписок и наград" allow allow deny
          deny)
    ∷ draft
        (changing "economy.credits.grant" "ручное начисление кредитов и очков" dual dual deny deny)
    ∷ []

-- The value of a role in a row; `other` has no column.
unfoldable pub value : Row → Role → Grant
value r owner = r.for_owner
value r admin = r.for_admin
value r moderator = r.for_moderator
value r support = r.for_support
value r (other _) = deny

pub is_deny : Grant → Bool
is_deny deny = true
is_deny _ = false

-- The loop of `build` panics (`none`) at a key that stands in the rows before it.
pub has_key : String → List Row → Bool
has_key k rs = any (λ r. str_eq r.p.key k) rs

build_from : List Row → List Row → Option (List Row)
unfolding has_key
build_from seen [] = some []
build_from seen (r ∷ rs) =
    let rest = build_from (r ∷ seen) rs in
    if has_key r.p.key seen then none else elim rest [ none ↦ none | some l ↦ some (r ∷ l) ]

unfoldable pub build : List Row → Option (List Row)
unfolding build_from
build rs = build_from [] rs

-- `byRole[role]` after the loop: neither drafts nor denials.
unfoldable pub by_role : List Row → Role → List (String × Grant)
unfolding value is_deny
by_role [] role = []
by_role (r ∷ rs) role =
    let rest = by_role rs role in
    if not r.p.is_draft && not (is_deny (value r role))
    then (r.p.key, value r role) ∷ rest
    else rest

-- `Grants`: the right values of a role, empty for a role that is not known.
unfoldable pub grants : Role → List (String × Grant)
unfolding by_role rows
grants role = by_role rows role

find_row : List Row → String → Option Permission
find_row [] key = none
find_row (r ∷ rs) key = if str_eq r.p.key key then some r.p else find_row rs key

-- `Lookup`, drafts included.
unfoldable pub lookup : String → Option Permission
unfolding find_row rows
lookup key = find_row rows key
