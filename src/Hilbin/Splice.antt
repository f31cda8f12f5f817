-- ===== src/Hilbin/Splice.antt =====
-- A repaired leg is the captured one with each lost exit put in its place.
use hardware_in_the_loop.Base.{
  ℕ, suc, ◌+◌, ◌≤◌, ◌<◌, true, [], ◌∷◌, ◌++◌, if◌then◌else◌, leb, All, ◌≡◌, refl, ◌∙◌, ap, arith,
  Bool-cases, inl, inr, if_false,
}
use hardware_in_the_loop.Hilbin.Repair.{
  Leg, too_long, lost_exits, insert_event, sort_leg, repaired_leg, npc_zero,
}

-- The lost exit between an event and the next one.
abbrev pub exit_of : ℕ → ℕ → ℕ → Leg → Leg
exit_of dead_time t g [] = []
exit_of dead_time t g ((t', g') ∷ leg) =
    if too_long dead_time t g t' then (t + dead_time, npc_zero) ∷ [] else []

-- The reference: exits where they belong.
unfoldable pub splice : ℕ → Leg → Leg
splice dead_time [] = []
splice dead_time ((t, g) ∷ leg) = (t, g) ∷ (exit_of dead_time t g leg ++ splice dead_time leg)

abbrev pub Ascending : Leg → Type 0
Ascending [] = Unit
Ascending ((t, g) ∷ []) = Unit
Ascending ((t, g) ∷ (t', g') ∷ leg) = (t ≤ t') × Ascending ((t', g') ∷ leg)

abbrev From : ℕ → Leg → Type 0
From t leg = All (λ e. t ≤ e.0) leg

insert_event-head : (e x : ℕ × ℕ) (leg : Leg) → e.0 ≤ x.0 → insert_event e (x ∷ leg) ≡ e ∷ x ∷ leg
unfolding insert_event
insert_event-head e x leg h = ground arith

insert_event-first : (e : ℕ × ℕ) (leg : Leg) → From e.0 leg → insert_event e leg ≡ e ∷ leg
unfolding insert_event
insert_event-first e [] h = refl
insert_event-first e (d ∷ leg) h = insert_event-head e d leg h.0

From-weaken : (s t : ℕ) (leg : Leg) → s ≤ t → From t leg → From s leg
From-weaken s t [] h f = tt
From-weaken s t (e ∷ leg) h f = (omega (arith, f.0), From-weaken s t leg h f.1)

Ascending-From : (t g : ℕ) (leg : Leg) → Ascending ((t, g) ∷ leg) → From t leg
Ascending-From t g [] h = tt
Ascending-From t g ((t', g') ∷ leg) h =
    (h.0, From-weaken t t' leg h.0 (Ascending-From t' g' leg h.1))

insert_event-From :
    (s : ℕ) (e : ℕ × ℕ) (leg : Leg) → s ≤ e.0 → From s leg → From s (insert_event e leg)
unfolding insert_event
insert_event-From s e [] h f = (h, tt)
insert_event-From s e (d ∷ leg) h f = elim (Bool-cases (leb e.0 d.0)) [
  | inl b ↦ rw b (h, f)
  | inr b ↦ rw b (f.0, insert_event-From s e leg h f.1)
]

sort_leg-From : (s : ℕ) (leg : Leg) → From s leg → From s (sort_leg leg)
unfolding sort_leg
sort_leg-From s [] f = tt
sort_leg-From s (e ∷ leg) f = insert_event-From s e (sort_leg leg) f.0 (sort_leg-From s leg f.1)

lost_exits-From : (s dead_time : ℕ) (leg : Leg) → From s leg → From s (lost_exits dead_time leg)
unfolding lost_exits
lost_exits-From s dead_time [] f = tt
lost_exits-From s dead_time ((t, g) ∷ []) f = tt
lost_exits-From s dead_time ((t, g) ∷ (t', g') ∷ leg) f =
    elim (Bool-cases (too_long dead_time t g t')) [
      | inl b ↦ rw b (omega (arith, f.0), lost_exits-From s dead_time ((t', g') ∷ leg) f.1)
      | inr b ↦ rw b (lost_exits-From s dead_time ((t', g') ∷ leg) f.1)
    ]

splice-From : (s dead_time : ℕ) (leg : Leg) → From s leg → From s (splice dead_time leg)
unfolding splice
splice-From s dead_time [] f = tt
splice-From s dead_time ((t, g) ∷ []) f = f
splice-From s dead_time ((t, g) ∷ (t', g') ∷ leg) f =
    let rest = splice-From s dead_time ((t', g') ∷ leg) f.1 in
    elim (Bool-cases (too_long dead_time t g t')) [
      | inl b ↦ rw b (f.0, (omega (arith, f.0), rest))
      | inr b ↦ rw b (f.0, rest)
    ]

-- An event before all others can be taken out of the sort.
sort_leg-earliest :
    (x : ℕ × ℕ) (leg exits : Leg)
    → From (suc x.0) leg
    → From x.0 exits
    → sort_leg (leg ++ x ∷ exits) ≡ x ∷ sort_leg (leg ++ exits)
unfolding sort_leg insert_event
sort_leg-earliest x [] exits f h = insert_event-first x (sort_leg exits) (sort_leg-From x.0 exits h)
sort_leg-earliest x (e ∷ leg) exits f h =
    ap (insert_event e) (sort_leg-earliest x leg exits f.1 h)
    ∙ if_false (e ∷ x ∷ sort_leg (leg ++ exits)) (ground (arith, f.0))

pub too_long-late :
    (dead_time t g next : ℕ) → too_long dead_time t g next ≡ true → t + dead_time < next
too_long-late dead_time t g next h = ground (arith, h)

-- A captured leg in the order of time comes out of the repair with each lost exit in its place: the
-- sort of events and exits together puts every exit right behind the dead state that it ends.
pub repaired_leg-splice :
    (dead_time : ℕ) (leg : Leg) → Ascending leg → repaired_leg dead_time leg ≡ splice dead_time leg
unfolding repaired_leg splice lost_exits sort_leg insert_event
repaired_leg-splice dead_time [] h = refl
repaired_leg-splice dead_time ((t, g) ∷ []) h = refl
repaired_leg-splice dead_time ((t, g) ∷ (t', g') ∷ leg) h =
    let later = (t', g') ∷ leg in
    let exits = lost_exits dead_time later in
    elim (Bool-cases (too_long dead_time t g t')) [
      | inl b ↦
          let x : ℕ × ℕ = (t + dead_time, npc_zero) in
          let late = too_long-late dead_time t g t' b in
          let ordered = Ascending-From t' g' leg h.1 in
          rw b (
            ap (insert_event (t, g)) (
              sort_leg-earliest x later exits
                (omega arith, From-weaken (suc (t + dead_time)) t' leg (omega arith) ordered)
                (lost_exits-From (t + dead_time) dead_time later
                  (omega arith, From-weaken (t + dead_time) t' leg (omega arith) ordered)))
            ∙ insert_event-head (t, g) x (sort_leg (later ++ exits)) (omega arith)
            ∙ ap (λ l. (t, g) ∷ x ∷ l) (repaired_leg-splice dead_time ((t', g') ∷ leg) h.1))
      | inr b ↦ rw b (
          ap (insert_event (t, g)) (repaired_leg-splice dead_time ((t', g') ∷ leg) h.1)
          ∙ insert_event-first (t, g) (splice dead_time later)
              (splice-From t dead_time later (Ascending-From t g later h)))
    ]
