-- ===== src/Watcher/Debounce/Owed.antt =====
-- internal/watcher/debounce.go: no change is lost.
use sfync.Base.{
  ℕ, ◌≡◌, ◌≢◌, refl, sym, ◌∙◌, subst, ◌⊎◌, inl, inr, Text, Option, none, some, List, [], ◌∷◌, ◌++◌,
}
use sfync.Base.{Bool, true, false, if◌then◌else◌, ◌==◌, nat_eq, text_eq, arith}
use sfync.Base.Dict.{lookup}
use sfync.Watcher.Watch.Unwatching.{Has, Has-without}
use sfync.Watcher.Debounce.{
  Timer, Debouncer, new_debouncer, stop_id, stop_timer, add, stop_found, stop, enter, Step, adds,
  expires, enters, calls, stops, stops_all, Reach, start, next,
}
use sfync.Watcher.Debounce.Sound.{Own, Sound, Reach-Sound}

-- Some timer of a list is for a key.
abbrev pub Waits : Text → List Timer → Type 0
Waits k [] = ⊥
Waits k (t ∷ l) = (t.key ≡ k) ⊎ Waits k l

-- A key whose callback will be called: a timer runs, or has expired, or the call is about to happen.
abbrev pub Live : Text → Debouncer → Type 0
Live k d = Waits k d.running ⊎ Waits k d.expired ⊎ Has k d.calling

-- Stopping the timer of a key takes no timer of another key.
stop_id-Waits :
    (k j : Text) (id : ℕ) (l : List Timer) → Own j id l → k ≢ j → Waits k l → Waits k (stop_id id l)
unfolding stop_id
stop_id-Waits k j id [] own apart h = h
stop_id-Waits k j id (t ∷ l) (here, own) apart h =
    by_id (t.id == id) refl h (stop_id-Waits k j id l own apart)
  where
    by_id :
        (b : Bool)
        → (t.id == id) ≡ b
        → (t.key ≡ k) ⊎ Waits k l
        → (Waits k l → Waits k (stop_id id l))
        → Waits k (if b then stop_id id l else t ∷ stop_id id l)
    by_id true same (inl e) ih = absurd (apart (sym e ∙ here (ground (arith))))
    by_id true same (inr h) ih = ih h
    by_id false _ (inl e) ih = inl e
    by_id false _ (inr h) ih = inr (ih h)

Waits-drop :
    (k : Text) (xs : List Timer) (t : Timer) (ys : List Timer)
    → Waits k (xs ++ (t ∷ ys))
    → (t.key ≡ k) ⊎ Waits k (xs ++ ys)
Waits-drop k [] t ys h = h
Waits-drop k (x ∷ xs) t ys (inl e) = inr (inl e)
Waits-drop k (x ∷ xs) t ys (inr h) = elim (Waits-drop k xs t ys h) [
  | inl e ↦ inl e
  | inr r ↦ inr (inr r)
]

Has-drop :
    (k : Text) (xs : List Text) (x : Text) (ys : List Text)
    → Has k (xs ++ (x ∷ ys))
    → (k ≡ x) ⊎ Has k (xs ++ ys)
Has-drop k [] x ys h = h
Has-drop k (y ∷ xs) x ys (inl e) = inr (inl e)
Has-drop k (y ∷ xs) x ys (inr h) = elim (Has-drop k xs x ys h) [
  | inl e ↦ inl e
  | inr r ↦ inr (inr r)
]

stop_timer-Waits :
    (k j : Text) (o : Option ℕ) (l : List Timer)
    → ((id : ℕ) → o ≡ some id → Own j id l)
    → k ≢ j
    → Waits k l
    → Waits k (stop_timer o l)
stop_timer-Waits k j none l own apart h = h
stop_timer-Waits k j (some id) l own apart h = stop_id-Waits k j id l (own id refl) apart h

-- Every key that is owed a call will get one.
abbrev Covers : Debouncer → List Text → Type 0
Covers d owed = (k : Text) → Has k owed → Live k d

add-Live : (k j : Text) (d : Debouncer) → Sound d → (k ≡ j) ⊎ Live k d → Live k (add j d)
unfolding add
add-Live k j d sound (inl e) = inl (inl (sym e))
add-Live k j d sound (inr (inr other)) = inr other
add-Live k j d sound (inr (inl running)) = elim (text_eq.dec k j) [
  | yes e ↦ inl (inl (sym e))
  | no apart ↦ inl (
      inr
        (stop_timer-Waits k j (lookup j d.timers) d.running (λ i h. sound.own j i h) apart running))
]

stop-Live : (k j : Text) (d : Debouncer) → Sound d → k ≢ j → Live k d → Live k (stop j d)
unfolding stop
stop-Live k j d sound apart live = by_found (lookup j d.timers) refl
  where
    by_found : (o : Option ℕ) → lookup j d.timers ≡ o → Live k (stop_found j o d)
    by_found none _ = live
    by_found (some id) e = elim live [
      | inl running ↦ inl (stop_id-Waits k j id d.running (sound.own j id e) apart running)
      | inr other ↦ inr other
    ]

Step-Covers :
    (d d' : Debouncer) (o o' : List Text) → Step d o d' o' → Sound d → Covers d o → Covers d' o'
unfolding enter
Step-Covers _ _ _ _ (adds d o j) sound covers k (inl e) = add-Live k j d sound (inl e)
Step-Covers _ _ _ _ (adds d o j) sound covers k (inr h) = add-Live k j d sound (inr (covers k h))
Step-Covers _ _ _ _ (expires d o xs t ys e) sound covers k h = elim (covers k h) [
  | inl running ↦ elim (Waits-drop k xs t ys (subst (λ l. Waits k l) e running)) [
    | inl same ↦ inr (inl (inl same))
    | inr rest ↦ inl rest
  ]
  | inr (inl expired) ↦ inr (inl (inr expired))
  | inr (inr calling) ↦ inr (inr calling)
]
Step-Covers _ _ _ _ (enters d o xs t ys e) sound covers k h = elim (covers k h) [
  | inl running ↦ inl running
  | inr (inl expired) ↦ elim (Waits-drop k xs t ys (subst (λ l. Waits k l) e expired)) [
    | inl same ↦ inr (inr (inl (sym same)))
    | inr rest ↦ inr (inl rest)
  ]
  | inr (inr calling) ↦ inr (inr (inr calling))
]
Step-Covers _ _ _ _ (calls d o xs j ys e) sound covers k h =
    let (old, apart) = Has-without k j o h in
    elim (covers k old) [
      | inl running ↦ inl running
      | inr (inl expired) ↦ inr (inl expired)
      | inr (inr calling) ↦ elim (Has-drop k xs j ys (subst (λ l. Has k l) e calling)) [
        | inl same ↦ absurd (apart same)
        | inr rest ↦ inr (inr rest)
      ]
    ]
Step-Covers _ _ _ _ (stops d o j) sound covers k h =
    let (old, apart) = Has-without k j o h in stop-Live k j d sound apart (covers k old)
Step-Covers _ _ _ _ (stops_all d o) sound covers k h = absurd h

-- In every reachable state each key that is owed a call of its callback, because it was added and
-- neither called nor stopped since, has a timer that runs, one that has expired, or its call is
-- about to happen.
pub Reach-Live :
    (d : Debouncer) (owed : List Text) → Reach d owed → (k : Text) → Has k owed → Live k d
unfolding new_debouncer
Reach-Live _ _ start k h = absurd h
Reach-Live _ _ (next d d' o o' r s) k h =
    Step-Covers d d' o o' s (Reach-Sound d o r) (Reach-Live d o r) k h
