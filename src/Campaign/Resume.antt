-- ===== src/Campaign/Resume.antt =====
-- What a finished matrix run leaves in the manifest: the next run has nothing to do again.
use hardware_in_the_loop.Base.{
  Bool, true, false, Option, none, some, List, [], ◌∷◌, if◌then◌else◌, ◌≡◌, refl, sym, ◌∙◌, ap,
  arith, Bool-cases, inl, inr, if_true, if_false,
}
use Prim.Native.String.{String}
use text.Mathlib.Text.{◌==◌ as str_eq}
use package.text.Mathlib.TextEquality.{eq_iff}
use mathlib.Core.Option.{some-injective}
use hardware_in_the_loop.Campaign.{Dict, insert, has}
use hardware_in_the_loop.Campaign.Dictionary.{bind-some, lookup-insert}
use hardware_in_the_loop.Campaign.Manifest.{
  Case, find_case, replace_case, case_after, update_manifest_case, is_case_already_ok, results_of,
  with_results, with_status, status_of,
}

-- A case keeps its results, and its id.
case_after-id :
    (level key dir : String) (ok : Bool) (c new : Case)
    → case_after level key dir ok c ≡ some new
    → new.id ≡ c.id
unfolding case_after
case_after-id level key dir false c new e = ap (λ c. c.id) (sym (some-injective _ _ e))
case_after-id level key dir true c new e =
    let (rs, h, e') = bind-some (results_of level c) _ new e in
    ap (λ c. c.id) (sym (some-injective _ _ e'))

abbrev has_result : String → String → Case → Bool
has_result level key c = elim (results_of level c) [ none ↦ false | some rs ↦ has key rs ]

has_result-insert :
    (level key dir lvl k : String) (rs : Dict String) (c : Case) (s : String)
    → results_of level c ≡ some rs
    → has_result lvl k c ≡ true
    → has_result lvl k (with_status s (with_results level (insert key dir rs) c)) ≡ true
has_result-insert level key dir lvl k rs c s h r = ground (arith, lookup-insert key k dir rs)

case_after-keeps :
    (level key dir lvl k : String) (ok : Bool) (c new : Case)
    → case_after level key dir ok c ≡ some new
    → has_result lvl k c ≡ true
    → has_result lvl k new ≡ true
unfolding case_after
case_after-keeps level key dir lvl k false c new e r =
    ap (has_result lvl k) (sym (some-injective _ _ e)) ∙ r
case_after-keeps level key dir lvl k true c new e r =
    let (rs, h, e') = bind-some (results_of level c) _ new e in
    ap (has_result lvl k) (sym (some-injective _ _ e'))
    ∙ has_result-insert level key dir lvl k rs c
        (status_of (with_results level (insert key dir rs) c)) h r

case_after-records :
    (level key dir : String) (c new : Case)
    → case_after level key dir true c ≡ some new
    → has_result level key new ≡ true
unfolding case_after
case_after-records level key dir c new e =
    let (rs, h, e') = bind-some (results_of level c) _ new e in
    ap (has_result level key) (sym (some-injective _ _ e'))
    ∙ ground (arith, lookup-insert key key dir rs, eq_iff key key)

find_case-id :
    (id : String) (cases : List Case) (c : Case) → find_case id cases ≡ some c → c.id ≡ id
unfolding find_case
find_case-id id [] c e = ground arith
find_case-id id (d ∷ cases) c e = elim (Bool-cases (str_eq d.id id)) [
  | inl h ↦ ap (λ c. c.id) (sym (some-injective _ _ (rw h at e))) ∙ (eq_iff d.id id).0 h
  | inr h ↦ find_case-id id cases c (rw h at e)
]

find_case-replace_case :
    (id j : String) (cases : List Case) (c new : Case)
    → find_case id cases ≡ some c
    → new.id ≡ id
    → find_case j (replace_case id new cases)
      ≡ (if str_eq id j then some new else find_case j cases)
unfolding find_case replace_case
find_case-replace_case id j [] c new e h = ground arith
find_case-replace_case id j (d ∷ cases) c new e h = ground (
  arith,
  eq_iff d.id id,
  eq_iff d.id j,
  eq_iff id j,
  eq_iff new.id j,
  find_case-replace_case id j cases c new,
)

abbrev ok_in : String → String → Option Case → Bool
ok_in level key none = false
ok_in level key (some c) = has_result level key c

is_case-ok_in :
    (m : List Case) (id level key : String)
    → is_case_already_ok m id level key ≡ ok_in level key (find_case id m)
unfolding is_case_already_ok
is_case-ok_in m id level key = ground arith

-- The case that an update changes, before and after; every other case is found as before.
update-parts :
    (m m' : List Case) (case_id level key dir : String) (ok : Bool)
    → update_manifest_case m case_id level key dir ok ≡ some m'
    → (c : Case) × (new : Case) × (find_case case_id m ≡ some c)
      × (case_after level key dir ok c ≡ some new)
      × ((j : String) → find_case j m' ≡ (if str_eq case_id j then some new else find_case j m))
unfolding update_manifest_case
update-parts m m' case_id level key dir ok e =
    let (c, h, e1) = bind-some (find_case case_id m) _ m' e in
    let (new, h', e2) = bind-some (case_after level key dir ok c) _ m' e1 in
    (
      c,
      new,
      h,
      h',
      λ j.
          ap (find_case j) (sym (some-injective _ _ e2))
          ∙ find_case-replace_case case_id j m c new h
              (case_after-id level key dir ok c new h' ∙ find_case-id case_id m c h),
    )

-- An update forgets no result.
pub update-keeps :
    (m m' : List Case) (case_id level key dir : String) (ok : Bool) (id lvl k : String)
    → update_manifest_case m case_id level key dir ok ≡ some m'
    → is_case_already_ok m id lvl k ≡ true
    → is_case_already_ok m' id lvl k ≡ true
update-keeps m m' case_id level key dir ok id lvl k e r =
    let (c, new, h, h', found) = update-parts m m' case_id level key dir ok e in
    is_case-ok_in m' id lvl k ∙ elim (Bool-cases (str_eq case_id id)) [
      | inl q ↦
          ap (ok_in lvl k) (found id ∙ if_true _ q)
          ∙ case_after-keeps level key dir lvl k ok c new h' (
              sym (ap (ok_in lvl k) (ap (λ i. find_case i m) (sym ((eq_iff case_id id).0 q)) ∙ h))
              ∙ sym (is_case-ok_in m id lvl k)
              ∙ r)
      | inr q ↦ ap (ok_in lvl k) (found id ∙ if_false _ q) ∙ sym (is_case-ok_in m id lvl k) ∙ r
    ]

-- An update with a success records it.
pub update-records :
    (m m' : List Case) (case_id level key dir : String)
    → update_manifest_case m case_id level key dir true ≡ some m'
    → is_case_already_ok m' case_id level key ≡ true
update-records m m' case_id level key dir e =
    let (c, new, h, h', found) = update-parts m m' case_id level key dir true e in
    is_case-ok_in m' case_id level key
    ∙ ap (ok_in level key) (found case_id ∙ if_true _ ((eq_iff case_id case_id).1 refl))
    ∙ case_after-records level key dir c new h'
