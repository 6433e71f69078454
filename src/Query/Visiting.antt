-- ===== src/Query/Visiting.antt =====
-- objectbox/query.go: Find with a data visitor, for a C library without result arrays.
use objectbox_go.Base.{ℕ, Option, true, Exec}
use objectbox_go.Transactions.{TxnApi}
use objectbox_go.Box.Api.{Box}
use objectbox_go.Box.Visiting.{Visited, VisitCall, read_using_visitor}
use objectbox_go.Query.{QueryState, guarded, on_world}

module _ {W O S : Type 0} (tx : TxnApi W) (box : Box W O S) where
  -- Find, with obx_query_visit
  unfoldable pub find_visiting : (Option ℕ → VisitCall W S) → Exec (QueryState (Visited W S)) S
  unfolding guarded read_using_visitor
  find_visiting visit =
      guarded (λ s. on_world (read_using_visitor tx box true (visit s.query.c_query)) s)
