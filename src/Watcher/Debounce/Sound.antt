-- ===== src/Watcher/Debounce/Sound.antt =====
-- internal/watcher/debounce.go: whose timers run.
use sfync.Base.{
  ℕ, ◌+◌, ◌<◌, ◌≡◌, sym, subst, ◌⊎◌, inl, inr, Text, Option, none, some, List, [], ◌∷◌, ◌++◌,
}
use sfync.Base.{true, false, if◌then◌else◌, ◌==◌, nat_eq, text_eq, arith}
use sfync.Base.Dict.{Dict, lookup, insert, erase, lookup-insert, lookup-erase, lookup-nil}
use sfync.Watcher.Debounce.{
  Timer, Debouncer, new_debouncer, stop_id, stop_timer, add, stop_found, stop, stop_each, stop_all,
  enter, Step, adds, expires, enters, calls, stops, stops_all, Reach, start, next,
}

-- A timer that a key stands for in the map is not a running timer of another key.
abbrev pub Own : Text → ℕ → List Timer → Type 0
Own k id [] = Unit
Own k id (t ∷ l) = (t.id ≡ id → t.key ≡ k) × Own k id l

abbrev pub Below : ℕ → List Timer → Type 0
Below n [] = Unit
Below n (t ∷ l) = (t.id < n) × Below n l

pub record Sound (d : Debouncer) : Type 0 where
  pub below : Below d.made d.running
  pub listed : (k : Text) (id : ℕ) → lookup k d.timers ≡ some id → id < d.made
  pub own : (k : Text) (id : ℕ) → lookup k d.timers ≡ some id → Own k id d.running

stop_id-Own : (k : Text) (i id : ℕ) (l : List Timer) → Own k i l → Own k i (stop_id id l)
unfolding stop_id
stop_id-Own k i id [] own = tt
stop_id-Own k i id (t ∷ l) (here, own) =
    let rest = stop_id-Own k i id l own in
    elim (t.id == id) as (λ b. Own k i (if b then stop_id id l else t ∷ stop_id id l)) [
      | true ↦ rest
      | false ↦ (here, rest)
    ]

stop_id-Below : (n id : ℕ) (l : List Timer) → Below n l → Below n (stop_id id l)
unfolding stop_id
stop_id-Below n id [] h = tt
stop_id-Below n id (t ∷ l) (here, h) =
    let rest = stop_id-Below n id l h in
    elim (t.id == id) as (λ b. Below n (if b then stop_id id l else t ∷ stop_id id l)) [
      | true ↦ rest
      | false ↦ (here, rest)
    ]

stop_each-Below :
    (n : ℕ) (timers : Dict Text ℕ) (l : List Timer) → Below n l → Below n (stop_each timers l)
unfolding stop_each
stop_each-Below n [] l h = h
stop_each-Below n ((key, id) ∷ timers) l h =
    stop_each-Below n timers (stop_id id l) (stop_id-Below n id l h)

Below-suc : (n : ℕ) (l : List Timer) → Below n l → Below (n + 1) l
Below-suc n [] h = tt
Below-suc n (t ∷ l) (here, h) = (omega (arith, here), Below-suc n l h)

-- A new timer has the number of no other.
Below-Own : (k : Text) (n : ℕ) (l : List Timer) → Below n l → Own k n l
Below-Own k n [] h = tt
Below-Own k n (t ∷ l) (here, h) = ((λ e. absurd (omega (arith, here, e))), Below-Own k n l h)

Below-drop :
    (n : ℕ) (xs : List Timer) (t : Timer) (ys : List Timer)
    → Below n (xs ++ (t ∷ ys))
    → Below n (xs ++ ys)
Below-drop n [] t ys (_, h) = h
Below-drop n (x ∷ xs) t ys (here, h) = (here, Below-drop n xs t ys h)

Own-drop :
    (k : Text) (id : ℕ) (xs : List Timer) (t : Timer) (ys : List Timer)
    → Own k id (xs ++ (t ∷ ys))
    → Own k id (xs ++ ys)
Own-drop k id [] t ys (_, h) = h
Own-drop k id (x ∷ xs) t ys (here, h) = (here, Own-drop k id xs t ys h)

stop_timer-Below : (n : ℕ) (o : Option ℕ) (l : List Timer) → Below n l → Below n (stop_timer o l)
stop_timer-Below n none l h = h
stop_timer-Below n (some id) l h = stop_id-Below n id l h

stop_timer-Own :
    (k : Text) (i : ℕ) (o : Option ℕ) (l : List Timer) → Own k i l → Own k i (stop_timer o l)
stop_timer-Own k i none l h = h
stop_timer-Own k i (some id) l h = stop_id-Own k i id l h

-- Erasing from the map leaves it a part of what it was.
erased :
    (j k : Text) (timers : Dict Text ℕ) (id : ℕ)
    → lookup j (erase k timers) ≡ some id
    → lookup j timers ≡ some id
erased j k timers id h = ground (arith, lookup-erase j k timers)

added :
    (j k : Text) (n : ℕ) (timers : Dict Text ℕ) (id : ℕ)
    → lookup j (insert k n timers) ≡ some id
    → ((j ≡ k) × (id ≡ n)) ⊎ (lookup j timers ≡ some id)
added j k n timers id h = elim (text_eq.dec j k) [
  | yes e ↦ inl (e, ground (arith, lookup-insert j k n timers))
  | no apart ↦ inr (ground (arith, lookup-insert j k n timers))
]

add-Sound : (k : Text) (d : Debouncer) → Sound d → Sound (add k d)
unfolding add
add-Sound k d sound = record {
  below = (
    omega arith,
    stop_timer-Below (d.made + 1) (lookup k d.timers) d.running
        (Below-suc d.made d.running sound.below),
  );
  listed = λ j id h. elim (added j k d.made d.timers id h) [
    | inl (_, e) ↦ omega (arith, e)
    | inr old ↦ omega (arith, sound.listed j id old)
  ];
  own = λ j id h. elim (added j k d.made d.timers id h) [
    | inl (e, i) ↦ (
      (λ _. sym e),
      stop_timer-Own j id (lookup k d.timers) d.running
          (subst (λ n. Own j n d.running) (sym i) (Below-Own j d.made d.running sound.below)),
    )
    | inr old ↦ (
      (λ e. absurd (omega (arith, e, sound.listed j id old))),
      stop_timer-Own j id (lookup k d.timers) d.running (sound.own j id old),
    )
  ];
}

stop-Sound : (k : Text) (d : Debouncer) → Sound d → Sound (stop k d)
unfolding stop
stop-Sound k d sound = by_found (lookup k d.timers)
  where
    by_found : (o : Option ℕ) → Sound (stop_found k o d)
    by_found none = sound
    by_found (some id) = record {
      below = stop_id-Below d.made id d.running sound.below;
      listed = λ j i h. sound.listed j i (erased j k d.timers i h);
      own = λ j i h. stop_id-Own j i id d.running (sound.own j i (erased j k d.timers i h));
    }

Step-Sound : (d d' : Debouncer) (o o' : List Text) → Step d o d' o' → Sound d → Sound d'
unfolding stop_all enter
Step-Sound _ _ _ _ (adds d o k) sound = add-Sound k d sound
Step-Sound _ _ _ _ (expires d o xs t ys e) sound = record {
  below = Below-drop d.made xs t ys (subst (λ l. Below d.made l) e sound.below);
  listed = sound.listed;
  own = λ j i h. Own-drop j i xs t ys (subst (λ l. Own j i l) e (sound.own j i h));
}
Step-Sound _ _ _ _ (enters d o xs t ys e) sound = record {
  below = sound.below;
  listed = λ j i h. sound.listed j i (erased j t.key d.timers i h);
  own = λ j i h. sound.own j i (erased j t.key d.timers i h);
}
Step-Sound _ _ _ _ (calls d o xs k ys e) sound = record {
  below = sound.below;
  listed = sound.listed;
  own = sound.own;
}
Step-Sound _ _ _ _ (stops d o k) sound = stop-Sound k d sound
Step-Sound _ _ _ _ (stops_all d o) sound = record {
  below = stop_each-Below d.made d.timers d.running sound.below;
  listed = λ j i h. absurd (ground (arith, lookup-nil {V = ℕ} j));
  own = λ j i h. absurd (ground (arith, lookup-nil {V = ℕ} j));
}

new-Sound : Sound new_debouncer
unfolding new_debouncer
new-Sound = record {
  below = tt;
  listed = λ j i h. absurd (ground (arith, lookup-nil {V = ℕ} j));
  own = λ j i h. tt;
}

pub Reach-Sound : (d : Debouncer) (o : List Text) → Reach d o → Sound d
Reach-Sound _ _ start = new-Sound
Reach-Sound _ _ (next d d' o o' r s) = Step-Sound d d' o o' s (Reach-Sound d o r)
