-- ===== src/Sql/Keyed.antt =====
-- Tables with a primary key: what a query finds after a statement, and that keys stay distinct.
use yudesk.Base.{
  ℕ, ◌≤◌, ◌≡◌, refl, sym, ◌∙◌, Bool, true, false, none, some, List, [], ◌∷◌, arith, if◌then◌else◌,
  same, same→≡, same_refl, Bool-cases, inl, inr,
}
use yudesk.Sql.Tables.{select, update, affected, delete, insert}

pub same_flip : (a b : List ℕ) → same a b ≡ false → same b a ≡ false
same_flip a b h = elim (Bool-cases (same b a)) [
  | inl e ↦ ground (arith, same→≡ b a, same_refl a)
  | inr e ↦ e
]

module _ {Row : Type 0} where
  -- A change that a query does not see leaves its hit in place, changed if the test says so.
  pub select-update-some :
      (query test : Row → Bool) (change : Row → Row) (rows : List Row) {r : Row}
      → ((x : Row) → query (change x) ≡ query x)
      → select query rows ≡ some r
      → select query (update test change rows) ≡ some (if test r then change r else r)
  unfolding select update
  select-update-some query test change [] unseen h = ground arith
  select-update-some query test change (x ∷ rows) {r} unseen h =
      ground (arith, unseen x, select-update-some query test change rows {r = r} unseen)

  pub select-update-none :
      (query test : Row → Bool) (change : Row → Row) (rows : List Row)
      → ((x : Row) → query (change x) ≡ query x)
      → select query rows ≡ none
      → select query (update test change rows) ≡ none
  unfolding select update
  select-update-none query test change [] unseen h = refl
  select-update-none query test change (x ∷ rows) unseen h =
      ground (arith, unseen x, select-update-none query test change rows unseen)

  pub select-insert-some :
      (query : Row → Bool) (new : Row) (rows : List Row) {r : Row}
      → select query rows ≡ some r
      → select query (insert new rows) ≡ some r
  unfolding select insert
  select-insert-some query new [] h = ground arith
  select-insert-some query new (x ∷ rows) {r} h =
      ground (arith, select-insert-some query new rows {r = r})

  pub select-insert-none :
      (query : Row → Bool) (new : Row) (rows : List Row)
      → select query rows ≡ none
      → select query (insert new rows) ≡ (if query new then some new else none)
  unfolding select insert
  select-insert-none query new [] h = refl
  select-insert-none query new (x ∷ rows) h = ground (arith, select-insert-none query new rows)

  -- A query whose hits the deletion does not touch.
  pub select-delete :
      (query test : Row → Bool) (rows : List Row)
      → ((x : Row) → query x ≡ true → test x ≡ false)
      → select query (delete test rows) ≡ select query rows
  unfolding select delete
  select-delete query test [] apart = refl
  select-delete query test (x ∷ rows) apart =
      ground (arith, apart x, select-delete query test rows apart)

  pub select-delete_self :
      (test : Row → Bool) (rows : List Row) → select test (delete test rows) ≡ none
  unfolding select delete
  select-delete_self test [] = refl
  select-delete_self test (x ∷ rows) = ground (arith, select-delete_self test rows)

  pub select-test :
      (query : Row → Bool) (rows : List Row) {r : Row} → select query rows ≡ some r → query r ≡ true
  unfolding select
  select-test query [] h = ground arith
  select-test query (x ∷ rows) {r} h = ground (arith, select-test query rows {r = r})

  pub affected_zero :
      (test : Row → Bool) (rows : List Row) → select test rows ≡ none → affected test rows ≡ 0
  unfolding select affected
  affected_zero test [] h = refl
  affected_zero test (x ∷ rows) h = ground (arith, affected_zero test rows)

  -- An update of no row is none.
  pub update_untouched :
      (test : Row → Bool) (change : Row → Row) (rows : List Row)
      → affected test rows ≡ 0
      → update test change rows ≡ rows
  unfolding update affected
  update_untouched test change [] h = refl
  update_untouched test change (x ∷ rows) h = ground (arith, update_untouched test change rows)

module _ {Row : Type 0} (key : Row → List ℕ) where
  abbrev pub Fresh : List ℕ → List Row → Type 0
  Fresh k [] = Unit {0}
  Fresh k (r ∷ rows) = (same (key r) k ≡ false) × Fresh k rows

  -- PRIMARY KEY
  abbrev pub IsKeyed : List Row → Type 0
  IsKeyed [] = Unit {0}
  IsKeyed (r ∷ rows) = Fresh (key r) rows × IsKeyed rows

module _ {Row : Type 0} (key : Row → List ℕ) where
  pub select→Fresh :
      (k : List ℕ) (rows : List Row) → select (λ r. same (key r) k) rows ≡ none → Fresh key k rows
  unfolding select
  select→Fresh k [] h = tt
  select→Fresh k (r ∷ rows) h = ground (arith, select→Fresh k rows)

  pub Fresh→select :
      (k : List ℕ) (rows : List Row) → Fresh key k rows → select (λ r. same (key r) k) rows ≡ none
  unfolding select
  Fresh→select k [] h = refl
  Fresh→select k (r ∷ rows) h = ground (arith, Fresh→select k rows h.1)

  Fresh-update :
      (k : List ℕ) (test : Row → Bool) (change : Row → Row) (rows : List Row)
      → ((x : Row) → key (change x) ≡ key x)
      → Fresh key k rows
      → Fresh key k (update test change rows)
  unfolding update
  Fresh-update k test change [] keeps h = tt
  Fresh-update k test change (r ∷ rows) keeps h =
      ground (arith, keeps r, Fresh-update k test change rows keeps h.1)

  pub IsKeyed-update :
      (test : Row → Bool) (change : Row → Row) (rows : List Row)
      → ((x : Row) → key (change x) ≡ key x)
      → IsKeyed key rows
      → IsKeyed key (update test change rows)
  unfolding update
  IsKeyed-update test change [] keeps h = tt
  IsKeyed-update test change (r ∷ rows) keeps h = ground (
    arith,
    keeps r,
    Fresh-update (key r) test change rows keeps h.0,
    IsKeyed-update test change rows keeps h.1,
  )

  Fresh-delete :
      (k : List ℕ) (test : Row → Bool) (rows : List Row)
      → Fresh key k rows
      → Fresh key k (delete test rows)
  unfolding delete
  Fresh-delete k test [] h = tt
  Fresh-delete k test (r ∷ rows) h = ground (arith, Fresh-delete k test rows h.1)

  pub IsKeyed-delete :
      (test : Row → Bool) (rows : List Row) → IsKeyed key rows → IsKeyed key (delete test rows)
  unfolding delete
  IsKeyed-delete test [] h = tt
  IsKeyed-delete test (r ∷ rows) h =
      ground (arith, Fresh-delete (key r) test rows h.0, IsKeyed-delete test rows h.1)

  Fresh-insert :
      (k : List ℕ) (new : Row) (rows : List Row)
      → Fresh key k rows
      → same (key new) k ≡ false
      → Fresh key k (insert new rows)
  unfolding insert
  Fresh-insert k new [] h e = (e, tt)
  Fresh-insert k new (r ∷ rows) h e = (h.0, Fresh-insert k new rows h.1 e)

  pub IsKeyed-insert :
      (new : Row) (rows : List Row)
      → Fresh key (key new) rows
      → IsKeyed key rows
      → IsKeyed key (insert new rows)
  unfolding insert
  IsKeyed-insert new [] f h = (tt, tt)
  IsKeyed-insert new (r ∷ rows) f h = (
    Fresh-insert (key r) new rows h.0 (same_flip (key r) (key new) f.0),
    IsKeyed-insert new rows f.1 h.1,
  )

  -- With distinct keys, a statement that names the key affects one row at most.
  pub affected-Fresh :
      (k : List ℕ) (test : Row → Bool) (rows : List Row)
      → ((x : Row) → test x ≡ true → key x ≡ k)
      → Fresh key k rows
      → affected test rows ≡ 0
  unfolding affected
  affected-Fresh k test [] names h = refl
  affected-Fresh k test (r ∷ rows) names h =
      ground (arith, names r, same_refl k, affected-Fresh k test rows names h.1)

  pub affected_keyed :
      (k : List ℕ) (test : Row → Bool) (rows : List Row)
      → ((x : Row) → test x ≡ true → key x ≡ k)
      → IsKeyed key rows
      → affected test rows ≤ 1
  unfolding affected
  affected_keyed k test [] names h = omega arith
  affected_keyed k test (r ∷ rows) names h = elim (Bool-cases (test r)) [
    | inl e ↦
        rw e
          (omega (arith, affected-Fresh (key r) test rows (λ x t. names x t ∙ sym (names r e)) h.0))
    | inr e ↦ rw e (omega (arith, affected_keyed k test rows names h.1))
  ]

  -- What the test sees is the row that the key finds.
  pub affected_found :
      (k : List ℕ) (test : Row → Bool) (rows : List Row) {r : Row}
      → ((x : Row) → test x ≡ true → key x ≡ k)
      → IsKeyed key rows
      → select (λ x. same (key x) k) rows ≡ some r
      → affected test rows ≡ (if test r then 1 else 0)
  unfolding affected select
  affected_found k test [] names h e = ground arith
  affected_found k test (x ∷ rows) {r} names h e = elim (Bool-cases (same (key x) k)) [
    | inl hit ↦ ground (
      arith,
      same→≡ (key x) k,
      affected-Fresh (key x) test rows (λ y t. names y t ∙ sym (same→≡ (key x) k hit)) h.0,
    )
    | inr miss ↦ ground (arith, names x, same_refl k, affected_found k test rows {r = r} names h.1)
  ]

  -- A row that some query finds is found by its own key.
  Fresh-miss :
      (k : List ℕ) (query : Row → Bool) (rows : List Row) {r : Row}
      → Fresh key k rows
      → select query rows ≡ some r
      → same k (key r) ≡ false
  unfolding select
  Fresh-miss k query [] h e = ground arith
  Fresh-miss k query (x ∷ rows) {r} h e = elim (Bool-cases (query x)) [
    | inl hit ↦ ground (arith, same_flip (key x) k h.0)
    | inr miss ↦ ground (arith, Fresh-miss k query rows {r = r} h.1)
  ]

  pub select-own_key :
      (query : Row → Bool) (rows : List Row) {r : Row}
      → IsKeyed key rows
      → select query rows ≡ some r
      → select (λ x. same (key x) (key r)) rows ≡ some r
  unfolding select
  select-own_key query [] h e = ground arith
  select-own_key query (x ∷ rows) {r} h e = elim (Bool-cases (query x)) [
    | inl hit ↦ ground (arith, same_refl (key x))
    | inr miss ↦
        ground
          (arith, Fresh-miss (key x) query rows {r = r} h.0, select-own_key query rows {r = r} h.1)
  ]
