-- ===== src/Box/Replaced.antt =====
-- RelationReplace of objectbox/box.go as a whole: a source ends with exactly the given targets.
use objectbox_go.Base.{
  ℕ, zero, suc, ◌≡◌, refl, sym, ap, ◌∙◌, ◌==◌, false, not, ◌&&◌, ◌||◌, List, [], Option, none, some,
  is_some, lookup, contains, keys, contains-keys, nonzero, ok, err, message_with, continue,
  >>=-eq-ok, ok-injective, arith,
}
use objectbox_go.Native.Calls.{c_get-eq-ok}
use objectbox_go.Transactions.{TxnApi, run_in_write_tx}
use objectbox_go.Transactions.Results.{run_in_write_tx-eq-ok, run_in_write_tx-view}
use objectbox_go.Box.Api.{Box}
use objectbox_go.Box.Links.{
  Marks, relation_ids, link_targets, old_marks, replace_links, replace_checked, relation_replace,
}
use objectbox_go.Box.Related.{
  RelationLaws, Resolved, Marked, mark_all-contains, link_targets-Linked, remove_all_of_takes,
}

abbrev pub targets : {T : Type 0} → Option (List T) → List T
targets none = []
targets (some objects) = objects

module _ {W O T S : Type 0} (tx : TxnApi W) (box : Box W O S) (target : Box W T S) (relation : ℕ)
    (laws : RelationLaws tx box target relation) where
  open tx use {errors}
  open laws use {related}

  relation_ids-related :
      (source : ℕ) (w : W) {ids : List ℕ}
      → (relation_ids tx box target relation source w).0 ≡ ok ids
      → (related (relation_ids tx box target relation source w).1 ≡ related w)
        × ((x : ℕ) → contains ids x ≡ related w source x)
  unfolding relation_ids
  relation_ids-related source w h =
      let (array, e, items, s) =
        c_get-eq-ok errors target.core.id_array_items target.core.id_array_free
          (target.core.rel_get_ids relation source) w h in
      (
        ap related s ∙ laws.free_ids array _ ∙ laws.get_ids source w,
        λ x. ap (λ l. contains l x) items ∙ laws.ids_are source array x w e,
      )

  old_marks-related :
      (id source : ℕ) (w : W) {marks : Marks}
      → (old_marks tx box target relation id source w).0 ≡ ok marks
      → (related (old_marks tx box target relation id source w).1 ≡ related w)
        × ((x : ℕ) → is_some (lookup x marks) ≡ (nonzero id && related w source x))
  unfolding old_marks
  old_marks-related zero source w h =
      (refl, λ x. ap (λ m. is_some (lookup x m)) (sym (ok-injective h)))
  old_marks-related (suc id) source w h =
      let (ids, e, step, h') = >>=-eq-ok (relation_ids tx box target relation source) _ w h in
      let (same, are) = relation_ids-related source w e in
      (
        ap (λ r. related r.1) step ∙ same,
        λ x.
            ap (λ m. is_some (lookup x m)) (sym (ok-injective h'))
            ∙ mark_all-contains ids x
            ∙ are x,
      )

  -- The source has the resolved targets, and, if it was a new object, those that it had already; the
  -- other sources have what they had.
  pub record Replaced (id source : ℕ) (objects : List T) (ids : List ℕ) (w w' : W) : Type 0 where
    pub found : Resolved tx box target relation laws objects ids
    pub exact :
        (x : ℕ) → related w' source x ≡ (contains ids x || (not (nonzero id) && related w source x))
    pub others : (s x : ℕ) → (source == s) ≡ false → related w' s x ≡ related w s x

  module _ (order : List ℕ → List ℕ)
      (all : (l : List ℕ) (x : ℕ) → contains (order l) x ≡ contains l x) where
    replace_links-Replaced :
        (id source : ℕ) (objects : List T) (w : W) {u : Unit {0}}
        → (replace_links tx box target relation order id source objects w).0 ≡ ok u
        → (ids : List ℕ) × Replaced id source objects ids w
            (replace_links tx box target relation order id source objects w).1
    unfolding replace_links
    replace_links-Replaced id source objects w h =
        let (marks, e1, s1, h1) = >>=-eq-ok (old_marks tx box target relation id source) _ w h in
        let w1 = (old_marks tx box target relation id source w).1 in
        let (same, old) = old_marks-related id source w e1 in
        let marked : Marked tx box target relation laws source marks w1 =
          λ x m. ap (λ r. r source x) same ∙ ground (arith, old x) in
        let (marks', e2, s2, h2) =
          >>=-eq-ok (link_targets tx box target relation source objects marks) _ w1 h1 in
        let w2 = (link_targets tx box target relation source objects marks w1).1 in
        let (ids, found, linked) =
          link_targets-Linked tx box target relation laws source objects marks marks' w1 marked
            e2 in
        let takes =
          remove_all_of_takes tx box target relation laws source (order (keys marks')) w2 h2 in
        (
          ids,
          record {
            found = found;
            exact = λ x.
                ap (λ r. related r.1 source x) (s1 ∙ s2)
                ∙ ground (
                  arith,
                  takes source x,
                  linked.pairs source x,
                  linked.unmarked x,
                  old x,
                  all (keys marks') x,
                  contains-keys marks' x,
                  ap (λ r. r source x) same,
                );
            others = λ s x ne.
                ap (λ r. related r.1 s x) (s1 ∙ s2)
                ∙ ground (arith, takes s x, linked.pairs s x, ap (λ r. r s x) same);
          },
        )

    run_in_write_tx-Replaced :
        (id source : ℕ) (objects : List T) (w : W) {u : Unit {0}}
        → (run_in_write_tx tx (replace_links tx box target relation order id source objects) w).0
          ≡ ok u
        → (ids : List ℕ) × Replaced id source objects ids w
            (run_in_write_tx tx (replace_links tx box target relation order id source objects) w).1
    run_in_write_tx-Replaced id source objects w h =
        let body = replace_links tx box target relation order id source objects in
        let (ids, r) =
          replace_links-Replaced id source objects (tx.txn_write w).1
            (run_in_write_tx-eq-ok tx body w h) in
        let left =
          run_in_write_tx-view tx related laws.puts.begin_keeps laws.puts.success_keeps body w h in
        let began = laws.puts.begin_keeps w in
        (
          ids,
          record {
            found = r.found;
            exact = λ x.
                ap (λ f. f source x) left
                ∙ r.exact x
                ∙ ap (λ f. contains ids x || (not (nonzero id) && f source x)) began;
            others = λ s x ne. ap (λ f. f s x) left ∙ r.others s x ne ∙ ap (λ f. f s x) began;
          },
        )

    replace_checked-Replaced :
        (id source : ℕ) (objects : Option (List T)) (w : W) {u : Unit {0}}
        → (replace_checked tx box target relation order id source objects w).0 ≡ ok u
        → (ids : List ℕ) × Replaced id source
            (targets objects)
            ids
            w
            (replace_checked tx box target relation order id source objects w).1
    unfolding replace_checked
    replace_checked-Replaced zero source none w h = run_in_write_tx-Replaced 0 source [] w h
    replace_checked-Replaced (suc id) source none w h = cc
    replace_checked-Replaced zero source (some objects) w h =
        run_in_write_tx-Replaced 0 source objects w h
    replace_checked-Replaced (suc id) source (some objects) w h =
        run_in_write_tx-Replaced (suc id) source objects w h

    -- If RelationReplace returns without an error, whatever the order in which Go walks its map, then
    -- the source is related to exactly the given targets, each by the identifier that it has or that
    -- its put returned; a source object with identifier 0 keeps the targets that it had beside them.
    -- No other source's targets have changed.
    pub relation_replace_exact :
        (source : ℕ) (object : O) (objects : Option (List T)) (w : W) {u : Unit {0}}
        → (relation_replace tx box target relation order source object objects w).0 ≡ ok u
        → (id : ℕ) × (ids : List ℕ) × ((box.binding.get_id object w).0 ≡ ok id)
          × Replaced id source
              (targets objects)
              ids
              w
              (relation_replace tx box target relation order source object objects w).1
    unfolding relation_replace
    relation_replace_exact source object objects w h =
        let (id, e, step, h') = >>=-eq-ok (box.binding.get_id object) _ w h in
        let (ids, r) =
          replace_checked-Replaced id source objects (box.binding.get_id object w).1 h' in
        let began = laws.source_id object w in
        (
          id,
          ids,
          e,
          record {
            found = r.found;
            exact = λ x.
                ap (λ q. related q.1 source x) step
                ∙ r.exact x
                ∙ ap (λ f. contains ids x || (not (nonzero id) && f source x)) began;
            others =
                λ s x ne. ap (λ q. related q.1 s x) step ∙ r.others s x ne ∙ ap (λ f. f s x) began;
          },
        )

  -- A nil slice for an object that has an identifier is refused, and only GetId has been called.
  pub relation_replace_nil :
      (order : List ℕ → List ℕ) (source id : ℕ) (object : O) (w : W)
      → (box.binding.get_id object w).0 ≡ ok (suc id)
      → relation_replace tx box target relation order source object none w ≡ (
        err (
            message_with "given NIL instead of an empty slice of target objects for relation ID"
              relation),
        (box.binding.get_id object w).1,
      )
  unfolding relation_replace replace_checked
  relation_replace_nil order source id object w h = rw (h, continue)
