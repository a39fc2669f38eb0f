-- ===== src/Statuses/Table.antt =====
-- The transition table of StatusMachine (optimization/status-machine.ts) and the validation helpers.
use nestra.Prelude.{
  ◌≡◌, refl, sym, ◌∙◌, inl, inr, Bool, true, false, ◌&&◌, ◌||◌, List, [], ◌∷◌, ◌++◌, Option, none,
  some, ltb, length, select, if◌then◌else◌, Bool-cases, arith,
}
use nestra.Statuses.{
  StatusTransition, Transitions, is_yes, same, includes, get, set, add_to, or_empty, add_from,
  initialize_transitions, new_machine, can_transition_to, is_valid_transition,
}

module _ {T : Type 0} (eq : Discrete T) where
  same_eq : (a b : T) → same eq a b ≡ true → a ≡ b
  same_eq a b = decided (eq a b)
    where
      decided : (d : Dec (a ≡ b)) → is_yes d ≡ true → a ≡ b
      decided (yes e) h = e
      decided (no n) h = absurd (cc)

  same_refl : (a : T) → same eq a a ≡ true
  same_refl a = decided (eq a a)
    where
      decided : (d : Dec (a ≡ a)) → is_yes d ≡ true
      decided (yes e) = refl
      decided (no n) = absurd (n refl)

  includes-append :
      (xs ys : List T) (u : T) → includes eq (xs ++ ys) u ≡ (includes eq xs u || includes eq ys u)
  unfolding includes
  includes-append [] ys u = refl
  includes-append (x ∷ xs) ys u = ground (arith, includes-append xs ys u)

  includes-add_to :
      (xs : List T) (t u : T) → includes eq (add_to eq xs t) u ≡ (includes eq xs u || same eq t u)
  unfolding add_to
  includes-add_to xs t u = elim (Bool-cases (includes eq xs t)) [
    | inr e ↦ rw (e, add_to) (includes-append xs (t ∷ []) u ∙ (unfold includes in ground arith))
    | inl e ↦ elim (Bool-cases (same eq t u)) [
      | inr f ↦ rw (e, add_to, f) (ground arith)
      | inl f ↦
          let g : includes eq xs u ≡ true = rw (← same_eq t u f) e in rw (e, add_to) (rw g refl)
    ]
  ]

  get-set :
      (m : Transitions T) (s u : T) (v : List T)
      → get eq (set eq m s v) u ≡ (if same eq s u then some v else get eq m u)
  unfolding get set
  get-set [] s u v = refl
  get-set ((k, w) ∷ m) s u v = elim (Bool-cases (same eq k s)) [
    | inl e ↦ let k_is : k ≡ s = same_eq k s e in rw (e, set, k_is) (ground arith)
    | inr e ↦ elim (Bool-cases (same eq k u)) [
      | inr f ↦ rw (e, set, f, get) (get-set m s u v)
      | inl f ↦
          let g : same eq s u ≡ false = elim (Bool-cases (same eq s u)) [
            | inr h ↦ h
            | inl h ↦ absurd (
                let k_u = same_eq k u f in
                let s_u = same_eq s u h in
                let h' : same eq k s ≡ true = rw (k_u, s_u) (same_refl u) in cc)
          ] in
          rw (e, set, f, get, g) refl
    ]
  ]

  -- Whether the table allows a change.
  abbrev allows : Transitions T → T → T → Bool
  allows m s t = includes eq (or_empty (get eq m s)) t

  add_from-allows :
      (m : Transitions T) (ss : List T) (to u t : T)
      → allows (add_from eq m ss to) u t ≡ (allows m u t || (includes eq ss u && same eq to t))
  unfolding add_from includes
  add_from-allows m [] to u t = ground arith
  add_from-allows m (s ∷ ss) to u t =
      let v = add_to eq (or_empty (get eq m s)) to in
      elim (Bool-cases (same eq s u)) [
        | inr e ↦ add_from-allows (set eq m s v) ss to u t ∙ rw (get-set m s u v, e) (ground arith)
        | inl e ↦
            add_from-allows (set eq m s v) ss to u t
            ∙ rw (get-set m s u v, e, includes-add_to (or_empty (get eq m s)) to t, same_eq s u e)
                (ground arith)
      ]

  -- Some transition of the list starts at the one status and ends at the other.
  abbrev any_edge : List (StatusTransition T) → T → T → Bool
  any_edge [] s t = false
  any_edge (r ∷ rs) s t = (includes eq r.from s && same eq r.to t) || any_edge rs s t

  initialize_transitions-allows :
      (m : Transitions T) (rs : List (StatusTransition T)) (s t : T)
      → allows (initialize_transitions eq m rs) s t ≡ (allows m s t || any_edge rs s t)
  unfolding initialize_transitions
  initialize_transitions-allows m [] s t = ground arith
  initialize_transitions-allows m (r ∷ rs) s t =
      initialize_transitions-allows (add_from eq m r.from r.to) rs s t
      ∙ rw (add_from-allows m r.from r.to s t) (ground arith)

  select-any_edge :
      (rs : List (StatusTransition T)) (s t : T)
      → ltb 0 (length (select (λ r. includes eq r.from s && same eq r.to t) rs)) ≡ any_edge rs s t
  select-any_edge [] s t = refl
  select-any_edge (r ∷ rs) s t = elim (Bool-cases (includes eq r.from s && same eq r.to t)) [
    | inl e ↦ rw e (ground arith)
    | inr e ↦ rw e (select-any_edge rs s t)
  ]

  -- A machine in status `s` over a list of transitions allows exactly the changes that the
  -- validation helpers accept from `s` over that list, whatever the list.
  pub can_transition_to-is_valid_transition :
      (rs : List (StatusTransition T)) (s t : T)
      → can_transition_to eq (new_machine eq s rs) t ≡ is_valid_transition eq rs s t
  unfolding can_transition_to new_machine is_valid_transition
  can_transition_to-is_valid_transition rs s t =
      read (get eq (initialize_transitions eq [] rs) s) refl
      ∙ initialize_transitions-allows [] rs s t
      ∙ (unfold get in (unfold includes in refl))
      ∙ sym (select-any_edge rs s t)
    where
      read :
          (g : Option (List T))
          → get eq (initialize_transitions eq [] rs) s ≡ g
          → can_transition_to eq (new_machine eq s rs) t
            ≡ allows (initialize_transitions eq [] rs) s t
      read none e = rw (e, can_transition_to) (unfold includes in refl)
      read (some xs) e = rw (e, can_transition_to) refl
