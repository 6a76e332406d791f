-- ===== src/Import/Decks/Recorded.antt =====
-- `_did` gives a deck of the source the same deck of the target every time.
use anki.Prelude.{
  ℕ, zero, suc, Option, none, some, List, [], ◌∷◌, ◌≡◌, subst, Option-cases, Bool-cases, inl, inr,
  IfSome, true, false, ==_iff, ◌==◌, arith,
}
use anki.Prelude.Text.{Text}
use anki.Decks.{DeckDict, get, id_of, immediate_parent_path}
use anki.Import.Decks.{
  DeckImport, DeckEnv, mapped, target_name, extend_head, free_name, import_parents, copy_config,
  save_desc, create_local, did_of,
}

-- What is mapped stays mapped to the same deck.
abbrev pub Extends : {S T : Type 0} → DeckImport S T → DeckImport S T → Type 0
Extends st st' = (did new : ℕ) → mapped did st.decks ≡ some new → mapped did st'.decks ≡ some new

-- The deck is mapped to the result, and what was mapped before still is.
abbrev pub IsRecorded : {S T : Type 0} → ℕ → DeckImport S T → ℕ × DeckImport S T → Type 0
IsRecorded did st out = (mapped did out.1.decks ≡ some out.0) × Extends st out.1

mapped-cons :
    (decks decks' : List (ℕ × ℕ)) (did newid k new : ℕ)
    → mapped did decks ≡ none
    → mapped k decks ≡ some new
    → mapped k decks' ≡ some new
    → mapped k ((did, newid) ∷ decks') ≡ some new
unfolding mapped
mapped-cons decks decks' did newid k new fresh e h = elim (Bool-cases (did == k)) [
  | inl s ↦ ground (arith, s, ==_iff did k, fresh, e)
  | inr s ↦ ground (arith, s, h)
]

module _ {S T C : Type 0} (env : DeckEnv S T C) where
  import_parents-Extends :
      (rec : ℕ → DeckImport S T → Option (ℕ × DeckImport S T))
      (ih : (did : ℕ) (st : DeckImport S T) → IfSome (IsRecorded did st) (rec did st)) (head : Text)
      (parents : List Text) (st : DeckImport S T)
      → IfSome (Extends st) (import_parents env rec head parents st)
  unfolding import_parents
  import_parents-Extends rec ih head [] st = λ did new e. e
  import_parents-Extends rec ih head (parent ∷ parents) st =
      let head' = extend_head head parent in
      let (id, src) = id_of env.src_backend head' false st.src in
      let st₁ : DeckImport S T = record st { src = src } in
      elim (Option-cases (rec id st₁)) [
        | inl e ↦ rw (e, IfSome) tt
        | inr ((did, st'), e) ↦
            let h : IsRecorded id st₁ (did, st') =
              subst (IfSome (IsRecorded id st₁)) e (ih id st₁) in
            rw (e, IfSome)
              (later (import_parents env rec head' parents st') st st' h.1
                (import_parents-Extends rec ih head' parents st'))
      ]
    where
      later :
          (o : Option (DeckImport S T)) (st st' : DeckImport S T)
          → Extends st st'
          → IfSome (Extends st') o
          → IfSome (Extends st) o
      later none st st' h k = tt
      later (some st'') st st' h k = λ did new e. k did new (h did new e)

  create_local-IsRecorded :
      (did : ℕ) (g : DeckDict) (name : Text) (st st' : DeckImport S T)
      → mapped did st.decks ≡ none
      → Extends st st'
      → IfSome (IsRecorded did st) (create_local env did g name st')
  unfolding create_local mapped
  create_local-IsRecorded did g name st st' fresh h =
      let (newid, dst) = id_of env.dst_backend (free_name env name st'.dst) false st'.dst in
      elim (Option-cases (copy_config env g newid st'.src dst)) [
        | inl e ↦ rw (e, IfSome) tt
        | inr (dst', e) ↦ elim (Option-cases (save_desc env g newid dst')) [
          | inl f ↦ rw (e, f, IfSome) tt
          | inr (dst'', f) ↦
              rw (e, f, IfSome)
                (
                  ground arith,
                  λ k new g. mapped-cons st.decks st'.decks did newid k new fresh g (h k new g),
                )
        ]
      ]

  -- If `_did` returns, the deck is mapped to the result, and every deck that was mapped before is
  -- still mapped to the same.
  pub did_of-IsRecorded :
      (fuel did : ℕ) (st : DeckImport S T) → IfSome (IsRecorded did st) (did_of env fuel did st)
  unfolding did_of
  did_of-IsRecorded zero did st = tt
  did_of-IsRecorded (suc fuel) did st = elim (Option-cases (mapped did st.decks)) [
    | inr (newid, e) ↦ rw (e, IfSome) (e, λ k new g. g)
    | inl e ↦ elim (Option-cases (get env.src_backend did true st.src)) [
      | inl f ↦ rw (e, f, IfSome) tt
      | inr (g, f) ↦
          let name = target_name env.deck_prefix g.name in
          let parents = import_parents env (did_of env fuel) [] (immediate_parent_path name) st in
          elim (Option-cases parents) [
            | inl k ↦ rw (e, f, k, IfSome) tt
            | inr (st', k) ↦
                let h : Extends st st' = subst (IfSome (Extends st)) k (
                  import_parents-Extends (did_of env fuel) (did_of-IsRecorded fuel) []
                    (immediate_parent_path name) st) in
                rw (e, f, k, IfSome) (create_local-IsRecorded did g name st st' e h)
          ]
    ]
  ]
