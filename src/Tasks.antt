-- ===== src/Tasks.antt =====
-- examples/tasks: the list of tasks that comes with the library, with the binding that the generator
-- made for it. A `*Task` is a reference, none if it is nil, into the memory of Go.
pub mod Binding
pub mod Reading
pub mod Boxes
pub mod Kept
pub mod Schema
pub mod Texts
pub mod Shell
pub mod Lines
pub mod Rounds
pub mod Exits
pub mod Ending
pub mod App
pub mod Created
pub mod Finished
pub mod Setup
pub mod Examples
use objectbox_go.Base.{
  ℕ, ◌≡◌, Option, none, some, List, Exec, pure, panics, message, ◌==◌, if◌then◌else◌,
}
use objectbox_go.Converters.{Time}

-- examples/tasks/internal/model/task.go
pub record Task : Type 0 where
  pub id : ℕ
  pub text : List ℕ
  pub date_created : Time
  pub date_finished : Time

-- The memory of Go, as part of the world.
pub record TaskHeap (W : Type 0) : Type 0 where
  pub read : ℕ → W → Task
  pub write : ℕ → Task → W → W
  pub alloc : Task → W → ℕ × W

-- What a memory is: a new or written object is read as it was written, and a write changes no other.
pub record TaskHeapLaws {W : Type 0} (heap : TaskHeap W) : Type 0 where
  pub read-write :
      (p : ℕ) (task : Task) (w : W) (q : ℕ)
      → heap.read q (heap.write p task w) ≡ (if p == q then task else heap.read q w)
  pub read-alloc :
      (task : Task) (w : W) → heap.read (heap.alloc task w).0 (heap.alloc task w).1 ≡ task

-- A field of a nil pointer panics.
unfoldable pub with_pointer : {W A : Type 0} → Option ℕ → (ℕ → Exec W A) → Exec W A
with_pointer none f = panics (message "invalid memory address or nil pointer dereference")
with_pointer (some p) f = f p
