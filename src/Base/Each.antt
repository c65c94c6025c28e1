-- ===== src/Base/Each.antt =====
-- A property of every entry of a list together with its position.
use computing_cluster.Base.{
  ◌≢◌, ℕ, ◌≡◌, subst, sym, ◌∙◌, List, some, arith, ◌==◌, inl, inr, get_elem?, set, Bool-cases,
  get_elem?-set_ne, get_elem?-set_self, get_elem?-lt, length, length-set, ◌<◌, if◌then◌else◌,
}

abbrev pub Each {ℓ κ} : {A : Type ℓ} → (ℕ → A → Type κ) → List A → Type (ℓ ⊔ κ)
Each {A} P xs = (i : ℕ) (x : A) → get_elem? xs i ≡ some x → P i x

module _ {ℓ} {A : Type ℓ} where
  pub get_elem?-set :
      (xs : List A) (i j : ℕ) (v : A)
      → i < length xs
      → get_elem? (set xs i v) j ≡ (if i == j then some v else get_elem? xs j)
  get_elem?-set xs i j v h = elim (Bool-cases (i == j)) [
    | inl e ↦ rw e (let s : i ≡ j = ground arith in rw (← s) (get_elem?-set_self xs i v h))
    | inr n ↦ rw n (get_elem?-set_ne xs i j v (λ e. ground arith))
  ]

  -- One entry replaced; the new list may differ in a way that the other entries notice.
  pub Each-set_ne {κ} :
      (P : ℕ → A → Type κ) (xs : List A) (i : ℕ) (v : A)
      → ((j : ℕ) (x : A) → get_elem? xs j ≡ some x → i ≢ j → P j x)
      → P i v
      → Each P (set xs i v)
  Each-set_ne P xs i v all here j x e = elim (Bool-cases (i == j)) [
    | inl same ↦
        let eq : i ≡ j = ground arith in
        let bound : i < length xs =
          omega (arith, length-set xs i v, get_elem?-lt (set xs i v) j e) in
        let both : some v ≡ some x = sym (get_elem?-set_self xs i v bound) ∙ rw (← eq) at e in
        let hit : v ≡ x = cc in subst (λ y. P j y) hit (subst (λ n. P n v) eq here)
    | inr other ↦
        let ne : i ≢ j = λ e. ground arith in all j x (sym (get_elem?-set_ne xs i j v ne) ∙ e) ne
  ]

  pub Each-set {κ} :
      (P : ℕ → A → Type κ) (xs : List A) (i : ℕ) (v : A) → Each P xs → P i v → Each P (set xs i v)
  Each-set P xs i v all = Each-set_ne P xs i v (λ j x e _. all j x e)
