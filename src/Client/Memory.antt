-- ===== src/Client/Memory.antt =====
-- pkg/ucl-client-lib/ucl_client.go: the lists that the C library hands out, on a heap of which only the
-- allocated blocks are kept, by their addresses.
use ucl_tools.Base.{
  ℕ, ◌+◌, ◌≡◌, Bool, true, false, Option, none, some, List, [], ◌∷◌, arith, ◌==◌, if◌then◌else◌,
  Text, length,
}

-- The blocks that are allocated, with the bytes in each, the next address that `malloc` gives, and
-- `lastAllocated1` and `lastAllocated2`.
pub record Heap : Type 0 where
  pub blocks : List (ℕ × Text)
  pub fresh : ℕ
  pub last_allocated1 : Option ℕ
  pub last_allocated2 : Option ℕ

abbrev pub no_blocks : Heap
no_blocks = record { blocks = []; fresh = 1; last_allocated1 = none; last_allocated2 = none }

-- `C.free`.
unfoldable pub free_block : ℕ → List (ℕ × Text) → List (ℕ × Text)
free_block ptr [] = []
free_block ptr ((p, bytes) ∷ blocks) =
    let rest = free_block ptr blocks in if p == ptr then blocks else (p, bytes) ∷ rest

-- `dcm_free_executable_app_list` and `dcm_free_running_app_list`.
unfoldable pub dcm_free_executable_app_list : Heap → Heap
unfolding free_block
dcm_free_executable_app_list h = elim h.last_allocated1 [
  | none ↦ h
  | some ptr ↦ record h { blocks = free_block ptr h.blocks; last_allocated1 = none }
]

unfoldable pub dcm_free_running_app_list : Heap → Heap
unfolding free_block
dcm_free_running_app_list h = elim h.last_allocated2 [
  | none ↦ h
  | some ptr ↦ record h { blocks = free_block ptr h.blocks; last_allocated2 = none }
]

-- `allocAndKeep`, where `full` says that `malloc` returns nil: the pointer, `none` for nil, and the
-- length. Its parameter `lastAllocated` is a copy, so setting it changes neither global.
unfoldable pub alloc_and_keep : Bool → Text → Heap → Heap × (Option ℕ × ℕ)
alloc_and_keep full [] h = (h, (none, 0))
alloc_and_keep true (c ∷ bytes) h = (h, (none, 0))
alloc_and_keep false (c ∷ bytes) h = (
  record h { blocks = (h.fresh, c ∷ bytes) ∷ h.blocks; fresh = h.fresh + 1 },
  (some h.fresh, length (c ∷ bytes)),
)

-- `dcm_get_executable_app_list` and `dcm_get_running_app_list`; `val` is what the client call returns.
unfoldable pub dcm_get_executable_app_list : Bool → Text → Heap → Heap × (Option ℕ × ℕ)
unfolding alloc_and_keep dcm_free_executable_app_list
dcm_get_executable_app_list full val h = alloc_and_keep full val (dcm_free_executable_app_list h)

unfoldable pub dcm_get_running_app_list : Bool → Text → Heap → Heap × (Option ℕ × ℕ)
unfolding alloc_and_keep dcm_free_running_app_list
dcm_get_running_app_list full val h = alloc_and_keep full val (dcm_free_running_app_list h)

-- A call of the library.
pub data LibraryCall : Type 0 where
  free_executable free_running : LibraryCall
  get_executable get_running : Bool → Text → LibraryCall

unfoldable pub after : LibraryCall → Heap → Heap
unfolding dcm_get_executable_app_list dcm_get_running_app_list
after free_executable h = dcm_free_executable_app_list h
after free_running h = dcm_free_running_app_list h
after (get_executable full val) h = (dcm_get_executable_app_list full val h).0
after (get_running full val) h = (dcm_get_running_app_list full val h).0

unfoldable pub after_all : List LibraryCall → Heap → Heap
unfolding after
after_all [] h = h
after_all (c ∷ calls) h = after_all calls (after c h)

-- How many calls were given a block.
abbrev pub given : List LibraryCall → ℕ
given [] = 0
given (get_executable false (c ∷ val) ∷ calls) = 1 + given calls
given (get_running false (c ∷ val) ∷ calls) = 1 + given calls
given (_ ∷ calls) = given calls

-- A heap on which nothing is kept.
abbrev quiet : List (ℕ × Text) → ℕ → Heap
quiet blocks fresh = record {
  blocks = blocks;
  fresh = fresh;
  last_allocated1 = none;
  last_allocated2 = none;
}

blocks_grow :
    (calls : List LibraryCall) (blocks : List (ℕ × Text)) (fresh : ℕ)
    → length (after_all calls (quiet blocks fresh)).blocks ≡ given calls + length blocks
unfolding after_all after dcm_get_executable_app_list dcm_get_running_app_list alloc_and_keep
    dcm_free_executable_app_list dcm_free_running_app_list
blocks_grow [] blocks fresh = omega arith
blocks_grow (free_executable ∷ calls) blocks fresh = blocks_grow calls blocks fresh
blocks_grow (free_running ∷ calls) blocks fresh = blocks_grow calls blocks fresh
blocks_grow (get_executable true [] ∷ calls) blocks fresh = blocks_grow calls blocks fresh
blocks_grow (get_executable true (c ∷ val) ∷ calls) blocks fresh = blocks_grow calls blocks fresh
blocks_grow (get_executable false [] ∷ calls) blocks fresh = blocks_grow calls blocks fresh
blocks_grow (get_executable false (c ∷ val) ∷ calls) blocks fresh =
    omega (arith, blocks_grow calls ((fresh, c ∷ val) ∷ blocks) (fresh + 1))
blocks_grow (get_running true [] ∷ calls) blocks fresh = blocks_grow calls blocks fresh
blocks_grow (get_running true (c ∷ val) ∷ calls) blocks fresh = blocks_grow calls blocks fresh
blocks_grow (get_running false [] ∷ calls) blocks fresh = blocks_grow calls blocks fresh
blocks_grow (get_running false (c ∷ val) ∷ calls) blocks fresh =
    omega (arith, blocks_grow calls ((fresh, c ∷ val) ∷ blocks) (fresh + 1))

-- After any calls of the library, as many blocks are allocated as calls were given one: the functions
-- that free them free none.
pub after_all-leak :
    (calls : List LibraryCall) → length (after_all calls no_blocks).blocks ≡ given calls
after_all-leak calls = omega (arith, blocks_grow calls [] 1)
