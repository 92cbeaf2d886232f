-- ===== src/Models/GraphNode/Save.antt =====
-- `save` and `delete` of models/graph_node.py (under src/tortoise_extended) and the counters of
-- children.
use tortoise_extended.Common.{
  ℕ, ◌+◌, ◌-◌, length, ◌≡◌, refl, sym, ap, ◌∙◌, ◌≢◌, Bool, true, false, Option, none, some, List,
  ◌∷◌, map, keep, ◌==◌, if◌then◌else◌, ok, raised, arith, subst,
}
use tortoise_extended.Common.Int.{ℤ, pos, negsuc}
use tortoise_extended.Models.GraphNode.{
  GraphNode, Statements, opt_eq, find, bump, count_at, previous_parent_id, save, delete,
  children_remain,
}
use tortoise_extended.Models.GraphNode.Counters.{
  child_number, CountsBy, IsCounted, one_at, bumped, child_number-bumped, CountsBy-raise,
  CountsBy-lower, CountsBy-cong, IsKeyed, replaced, without, child_number-replaced,
  child_number-without, CountsBy-replaced, CountsBy-without,
}

-- The laws of the statements: what they leave in the table.
pub record Documented (st : Statements) : Type 0 where
  pub written : GraphNode → st.Db → st.Db
  pub inserted : GraphNode → st.Db → st.Db
  pub removed : ℕ → st.Db → st.Db
  pub insert_lem :
      (x : GraphNode) (db : st.Db)
      → (st.insert x db ≡ ok (inserted x db)) × (st.rows (inserted x db) ≡ x ∷ st.rows db)
  pub write_lem :
      (x : GraphNode) (db : st.Db)
      → (st.write none x db ≡ ok (written x db))
        × (st.rows (written x db) ≡ replaced x (st.rows db))
  pub remove_lem :
      (k : ℕ) (db : st.Db)
      → (st.remove k db ≡ ok (removed k db)) × (st.rows (removed k db) ≡ without k (st.rows db))
  pub update_lem :
      (test : GraphNode → Bool) (change : GraphNode → GraphNode) (db : st.Db)
      → st.rows (st.update test change db) ≡ map (λ r. if test r then change r else r) (st.rows db)

module _ (st : Statements) (laws : Documented st) where
  rows-count_at :
      (d : ℤ) (o : Option ℕ) (db : st.Db) → st.rows (count_at st d o db) ≡ bumped d o (st.rows db)
  unfolding count_at
  rows-count_at d none db = refl
  rows-count_at d (some k) db = laws.update_lem (λ r. r.pk == k) (bump d) db

  -- The counter after a raise, of rows that counted `f`.
  settle :
      (d : ℤ) (o : Option ℕ) (g : ℕ → ℕ) (rs : List GraphNode)
      → ((k : ℕ) → g k ≡ child_number k rs)
      → CountsBy g (bumped d o rs)
      → IsCounted (bumped d o rs)
  settle d o g rs h c =
      CountsBy-cong g (λ k. child_number k (bumped d o rs)) (bumped d o rs)
        (λ k. h k ∙ sym (child_number-bumped d o k rs)) c

  -- Saving a new node, which counts no children and which nothing names as parent, succeeds and keeps
  -- every counter the number of the children, if the statements do what is documented.
  save-IsCounted :
      (x : GraphNode) (db : st.Db)
      → x.child_count ≡ pos 0
      → child_number x.pk (st.rows db) ≡ 0
      → IsCounted (st.rows db)
      → (db' : st.Db) × (save st x false none false false db ≡ ok db') × IsCounted (st.rows db')
  unfolding save
  save-IsCounted x db fresh alone counted =
      let (done, rows) = laws.insert_lem x db in
      let rs : List GraphNode = st.rows db in
      (
        count_at st (pos 1) x.parent_id (laws.inserted x db),
        rw done refl,
        subst IsCounted
            (sym (
              rows-count_at (pos 1) x.parent_id (laws.inserted x db)
              ∙ ap (bumped (pos 1) x.parent_id) rows))
            (settle (pos 1) x.parent_id (λ k. child_number k (x ∷ rs)) (x ∷ rs) (λ k. refl)
              (CountsBy-raise x.parent_id (λ k. child_number k rs) (λ k. child_number k (x ∷ rs))
                (x ∷ rs) (λ k. ground arith) (fresh ∙ ap pos (sym alone), counted))),
      )

  previous :
      (x old : GraphNode) (db : st.Db)
      → find x.pk (st.rows db) ≡ some old
      → previous_parent_id st x db ≡ old.parent_id
  unfolding previous_parent_id
  previous x old db here = rw (previous_parent_id, here) refl

  at_least :
      (k : ℕ) (old : GraphNode) (j : ℕ) (rs : List GraphNode)
      → IsKeyed rs
      → find j rs ≡ some old
      → child_number k rs ≡ child_number k rs - one_at old.parent_id k + one_at old.parent_id k
  at_least k old j rs h e = omega (arith, child_number-without old k j rs h e)

  -- In a table of different keys, saving a stored node in full, with the counter that is stored, under
  -- any parent, succeeds and keeps every counter the number of the children, if the statements do what
  -- is documented.
  pub save-IsCounted_again :
      (x old : GraphNode) (db : st.Db)
      → IsKeyed (st.rows db)
      → find x.pk (st.rows db) ≡ some old
      → x.child_count ≡ old.child_count
      → IsCounted (st.rows db)
      → (db' : st.Db) × (save st x true none false false db ≡ ok db') × IsCounted (st.rows db')
  unfolding save
  save-IsCounted_again x old db keyed here same counted =
      let (done, rows) = laws.write_lem x db in
      let rs : List GraphNode = st.rows db in
      let o : Option ℕ = old.parent_id in
      let lowered : ℕ → ℕ = λ k. child_number k rs - one_at o k in
      let first : st.Db = count_at st (negsuc 0) o (laws.written x db) in
      let r1 : List GraphNode = bumped (negsuc 0) o (replaced x rs) in
      let rows1 : st.rows first ≡ r1 =
        rows-count_at (negsuc 0) o (laws.written x db) ∙ ap (bumped (negsuc 0) o) rows in
      (
        count_at st (pos 1) x.parent_id first,
        rw (previous x old db here, done) refl,
        subst IsCounted
            (sym (rows-count_at (pos 1) x.parent_id first ∙ ap (bumped (pos 1) x.parent_id) rows1))
            (settle (pos 1) x.parent_id (λ k. child_number k r1) r1 (λ k. refl)
              (CountsBy-raise x.parent_id lowered (λ k. child_number k r1) r1
                (λ k.
                  child_number-bumped (negsuc 0) o k (replaced x rs)
                  ∙ omega (
                    arith,
                    child_number-replaced x old k rs keyed here,
                    at_least k old x.pk rs keyed here,
                  ))
                (CountsBy-lower o (λ k. child_number k rs) lowered (replaced x rs)
                  (λ k. at_least k old x.pk rs keyed here)
                  (CountsBy-replaced x old (λ k. child_number k rs) rs keyed here same counted)))),
      )

  -- In a table of different keys, deleting a stored node whose parent is as stored, without the orphan
  -- guard, succeeds and keeps every counter the number of the children, if the statements do what is
  -- documented.
  pub delete-IsCounted :
      (x old : GraphNode) (db : st.Db)
      → IsKeyed (st.rows db)
      → find x.pk (st.rows db) ≡ some old
      → x.parent_id ≡ old.parent_id
      → IsCounted (st.rows db)
      → (db' : st.Db) × (delete st false x db ≡ ok db') × IsCounted (st.rows db')
  unfolding delete
  delete-IsCounted x old db keyed here same counted =
      let (done, rows) = laws.remove_lem x.pk db in
      let rs : List GraphNode = st.rows db in
      let o : Option ℕ = x.parent_id in
      let left : List GraphNode = without x.pk rs in
      (
        count_at st (negsuc 0) o (laws.removed x.pk db),
        rw done refl,
        subst IsCounted
            (sym
              (rows-count_at (negsuc 0) o (laws.removed x.pk db) ∙ ap (bumped (negsuc 0) o) rows))
            (settle (negsuc 0) o (λ k. child_number k left) left (λ k. refl)
              (CountsBy-lower o (λ k. child_number k rs) (λ k. child_number k left) left
                (λ k. sym (rw same (child_number-without old k x.pk rs keyed here)))
                (CountsBy-without x.pk (λ k. child_number k rs) rs counted))),
      )

  -- With the orphan guard, a node that a row names as parent is not deleted.
  pub delete-raised :
      (x : GraphNode) (db : st.Db)
      → length (keep (λ r. opt_eq r.parent_id x.pk) (st.rows db)) ≢ 0
      → delete st true x db ≡ raised children_remain
  unfolding delete
  delete-raised x db remain = ground arith
