-- ===== src/Campaign/Dictionary.antt =====
-- Laws of the dictionaries with texts as keys, and of a chain of steps that may raise.
use hardware_in_the_loop.Base.{
  Bool, true, false, Option, none, some, List, [], ◌∷◌, if◌then◌else◌, ◌≡◌, refl, sym, ◌∙◌, all,
  any, arith, Bool-cases, inl, inr,
}
use Prim.Native.String.{String}
use text.Mathlib.Text.{◌==◌ as str_eq}
use package.text.Mathlib.TextEquality.{eq_iff}
use hardware_in_the_loop.Campaign.{Dict, ◌>>=◌, lookup, insert, update, has}

-- A step that gave a result had one of its own.
pub bind-some :
    {A B : Type 0} (o : Option A) (f : A → Option B) (b : B)
    → (o >>= f) ≡ some b
    → (a : A) × (o ≡ some a) × (f a ≡ some b)
bind-some none f b e = ground arith
bind-some (some a) f b e = (a, refl, e)

pub bind_at :
    {A B : Type 0} {o : Option A} {a : A} (f : A → Option B) → o ≡ some a → (o >>= f) ≡ f a
bind_at f e = rw e refl

module _ {V : Type 0} where
  pub lookup-insert :
      (name other : String) (value : V) (entries : Dict V)
      → lookup other (insert name value entries)
        ≡ (if str_eq name other then some value else lookup other entries)
  unfolding lookup insert
  lookup-insert name other value [] = refl
  lookup-insert name other value ((key, old) ∷ entries) = ground (
    arith,
    lookup-insert name other value entries,
    eq_iff key name,
    eq_iff key other,
    eq_iff name other,
  )

  abbrev pub names : Dict V → List String
  names [] = []
  names ((k, v) ∷ m) = k ∷ names m

  pub lookup-update_other :
      (k : String) (m settings : Dict V)
      → has k settings ≡ false
      → lookup k (update m settings) ≡ lookup k m
  unfolding lookup update
  lookup-update_other k m [] h = refl
  lookup-update_other k m ((j, v) ∷ settings) h =
      ground (arith, lookup-insert j k v m, lookup-update_other k (insert j v m) settings)

  -- What is set does not depend on what was there before.
  pub lookup-update_same :
      (k : String) (m n settings : Dict V)
      → has k settings ≡ true
      → lookup k (update m settings) ≡ lookup k (update n settings)
  unfolding lookup update
  lookup-update_same k m n [] h = ground arith
  lookup-update_same k m n ((j, v) ∷ settings) h = elim (Bool-cases (has k settings)) [
    | inl e ↦ lookup-update_same k (insert j v m) (insert j v n) settings e
    | inr e ↦
        lookup-update_other k (insert j v m) settings e
        ∙ ground (arith, lookup-insert j k v m, lookup-insert j k v n)
        ∙ sym (lookup-update_other k (insert j v n) settings e)
  ]

  -- A name that the test refuses is no key, where the test holds of every key.
  pub has-names :
      (test : String → Bool) (k : String) (m : Dict V)
      → all test (names m) ≡ true
      → test k ≡ false
      → has k m ≡ false
  unfolding lookup
  has-names test k [] h r = refl
  has-names test k ((j, v) ∷ m) h r = ground (arith, eq_iff j k, has-names test k m)

  pub has-key : (k : String) (m : Dict V) → has k m ≡ any (str_eq k) (names m)
  unfolding lookup
  has-key k [] = refl
  has-key k ((j, v) ∷ m) = ground (arith, eq_iff j k, eq_iff k j, has-key k m)

  -- Two dictionaries that agree on a key still do after the same settings.
  pub update_over :
      (k : String) (m n settings : Dict V)
      → lookup k m ≡ lookup k n
      → lookup k (update m settings) ≡ lookup k (update n settings)
  update_over k m n settings h = elim (Bool-cases (has k settings)) [
    | inl e ↦ lookup-update_same k m n settings e
    | inr e ↦ lookup-update_other k m settings e ∙ h ∙ sym (lookup-update_other k n settings e)
  ]
