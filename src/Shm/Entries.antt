-- ===== src/Shm/Entries.antt =====
-- The entries of src/client/shm_cache/shmcache.c, their hash and their order by age.
use spindle.Prelude.{
  ℕ, ◌+◌, ◌-◌, ◌*◌, ◌/◌, ◌%◌, ◌^◌, List, [], ◌∷◌, Option, none, some, Bool, true, false, not, ◌==◌,
  ◌&&◌, ◌||◌, ltb, if◌then◌else◌, CString, str_eq,
}

-- What a name maps to: NULL, the mark that a client is asking for it, or a name.
pub data Mapping : Type 0 where
  no_mapping in_progress : Mapping
  mapped : CString → Mapping

-- `struct entry_t`, but for its links. A name is NULL after a failed update.
pub record ShmEntry : Type 0 where
  pub libname : Option CString
  pub result : Mapping
  pub hash_key : ℕ
  pub pending_count : ℕ

-- The allocator's own state changes with each call; a block is known by its size.
pub record Sheep (Heap : Type 0) : Type 0 where
  pub malloc_sheep : ℕ → Heap → Option Heap
  pub free_sheep : ℕ → Heap → Heap

pub record Shm (Heap : Type 0) : Type 0 where
  pub table : ℕ → List ℕ
  pub lru : List ℕ
  pub entries : ℕ → ShmEntry
  pub next_entry : ℕ
  pub heap_used : ℕ
  pub heap : Heap

abbrev pub hash_size : ℕ
hash_size = 1024

abbrev pub sizeof_entry : ℕ
sizeof_entry = 28

abbrev pub sizeof_sheep_ptr : ℕ
sizeof_sheep_ptr = 4

abbrev pub sizeof_block_prefix : ℕ
sizeof_block_prefix = 16

unfoldable pub sheep_alloc_size : ℕ → ℕ
sheep_alloc_size size =
    let alloc_size = if size % 8 == 0 then size else (size / 8 + 1) * 8 in
    (if alloc_size == 0 then 8 else alloc_size) + sizeof_block_prefix

-- A `char` is signed: a byte above 127 is extended with ones to 64 bits.
unfoldable pub char_to_ulong : ℕ → ℕ
char_to_ulong c = if ltb c 128 then c else c + (2 ^ 64 - 256)

unfoldable pub str_hash_loop : ℕ → CString → ℕ
unfolding char_to_ulong
str_hash_loop hashv [] = hashv
str_hash_loop hashv (c ∷ str) =
    str_hash_loop (((hashv * 32) % 2 ^ 64 + hashv + char_to_ulong c) % 2 ^ 64) str

unfoldable pub str_hash : CString → ℕ
unfolding str_hash_loop
str_hash str = str_hash_loop 5381 str % hash_size

-- `none` is a failed assertion, or a read through NULL.
infixl 5 ◌>>=◌
abbrev pub ◌>>=◌ : {A B : Type 0} → Option A → (A → Option B) → Option B
◌>>=◌ m f = elim m [ none ↦ none | some a ↦ f a ]

-- Takes an element out of a list that has it once.
unfoldable pub without : ℕ → List ℕ → List ℕ
without a [] = []
without a (b ∷ l) = if b == a then l else b ∷ without a l

-- `mark_recently_used`, on the list by age.
unfoldable pub mark_recently_used : ℕ → List ℕ → List ℕ
unfolding without
mark_recently_used a [] = a ∷ []
mark_recently_used a (b ∷ l) = if b == a then b ∷ l else a ∷ without a (b ∷ l)

unfoldable pub is_in_progress : Mapping → Bool
is_in_progress in_progress = true
is_in_progress no_mapping = false
is_in_progress (mapped text) = false

-- The test of the loop of `clean_oldest_entry`.
unfoldable pub is_busy : ShmEntry → Bool
unfolding is_in_progress
is_busy entry = is_in_progress entry.result || not (entry.pending_count == 0)

-- Its loop, from the end of the list by age.
unfoldable pub oldest : (ℕ → ShmEntry) → List ℕ → Option ℕ
unfolding is_busy
oldest entries [] = none
oldest entries (a ∷ l) = elim (oldest entries l) [
  | some b ↦ some b
  | none ↦ if is_busy (entries a) then none else some a
]

unfoldable pub change : {A : Type 0} → ℕ → A → (ℕ → A) → ℕ → A
change a value f b = if b == a then value else f b

-- The search of `shmcache_lookup_worker` along a chain.
unfoldable pub has_name : ℕ → CString → ShmEntry → Bool
has_name key name entry =
    entry.hash_key == key && elim entry.libname [ none ↦ false | some str ↦ str_eq str name ]

unfoldable pub find_cached : (ℕ → ShmEntry) → ℕ → CString → List ℕ → Option ℕ
unfolding has_name
find_cached entries key name [] = none
find_cached entries key name (a ∷ chain) =
    if has_name key name (entries a) then some a else find_cached entries key name chain
