-- ===== src/Shm/Linked.antt =====
-- The entry that `shmcache_add_worker` links in front of its chain and of the list by age.
use spindle.Prelude.{
  ℕ, ◌+◌, List, ◌∷◌, true, false, ◌==◌, ◌≡◌, refl, sym, ap, ◌∙◌, arith, contains, Bool-cases, inl,
  inr, CString,
}
use spindle.Shm.{Mapping, ShmEntry, Shm, change, str_hash, mark_recently_used}
use spindle.Shm.Lists.{
  IsDistinct, contains-mark_recently_used, mark_recently_used-IsDistinct, mark_recently_used_none,
  total, total_congr, apart, mark_recently_used_cases, longer_chain_old, longer_chain_cases,
  contains_head,
}
use spindle.Shm.Clean.{IsCache, entry_cost}
use spindle.Shm.Steps.{change_self, change_ne}
use spindle.Shm.Ops.{new_shm_entry, linked}

module _ {Heap : Type 0} (limit : ℕ) where
  module _ (extra : ℕ) (s : Shm Heap) (is : IsCache limit extra s) where
    -- The new number is none of an entry.
    pub next_entry_new : contains s.next_entry s.lru ≡ false
    next_entry_new = elim (Bool-cases (contains s.next_entry s.lru)) [
      | inl e ↦ absurd (omega (arith, is.fresh s.next_entry e))
      | inr e ↦ e
    ]

    next_entry_chain : (key : ℕ) → contains s.next_entry (s.table key) ≡ false
    next_entry_chain key = elim (Bool-cases (contains s.next_entry (s.table key))) [
      | inl h ↦ let (there, at) = is.aged key s.next_entry h in cc (there, next_entry_new)
      | inr h ↦ h
    ]

    pub change_cached :
        (b : ℕ) (entry : ShmEntry)
        → contains b s.lru ≡ true
        → change s.next_entry entry s.entries b ≡ s.entries b
    change_cached b entry h =
        change_ne s.next_entry b entry s.entries (apart s.next_entry b s.lru next_entry_new h)

    change_next :
        (b : ℕ) (entry : ShmEntry)
        → s.next_entry ≡ b
        → change s.next_entry entry s.entries b ≡ entry
    change_next b entry same =
        ap (change s.next_entry entry s.entries) (sym same)
        ∙ change_self s.next_entry entry s.entries

    longer_chain-IsDistinct :
        (own key : ℕ) → IsDistinct (change own (s.next_entry ∷ s.table own) s.table key)
    unfolding change
    longer_chain-IsDistinct own key = elim (Bool-cases (key == own)) [
      | inl e ↦ rw e (next_entry_chain own, is.chain_distinct own)
      | inr e ↦ rw e (is.chain_distinct key)
    ]

    total-linked :
        (entry : ShmEntry)
        → total
            (λ b. entry_cost (change s.next_entry entry s.entries b))
            (mark_recently_used s.next_entry s.lru)
          ≡ entry_cost entry + total (λ b. entry_cost (s.entries b)) s.lru
    total-linked entry =
        let cost : ℕ → ℕ = λ b. entry_cost (change s.next_entry entry s.entries b) in
        let sum : total cost (mark_recently_used s.next_entry s.lru)
            ≡ cost s.next_entry + total cost s.lru =
          ap (total cost) (mark_recently_used_none s.next_entry s.lru next_entry_new) in
        let same : total cost s.lru ≡ total (λ b. entry_cost (s.entries b)) s.lru =
          total_congr cost _ s.lru (λ b h. ap entry_cost (change_cached b entry h)) in
        let self : cost s.next_entry ≡ entry_cost entry =
          ap entry_cost (change_next s.next_entry entry refl) in
        omega (arith, sum, same, self)

    module _ (entry : ShmEntry) (own : ℕ) (key_own : entry.hash_key ≡ own) where
      linked_chained :
          (b : ℕ)
          → contains b (mark_recently_used s.next_entry s.lru) ≡ true
          → contains b (
              change own
                (s.next_entry ∷ s.table own)
                s.table
                (change s.next_entry entry s.entries b).hash_key)
            ≡ true
      linked_chained b h =
          let chain : ℕ → List ℕ = change own (s.next_entry ∷ s.table own) s.table in
          elim (mark_recently_used_cases s.next_entry b s.lru h) [
            | inl same ↦
                ap (λ e. contains b (chain e.hash_key)) (change_next b entry same)
                ∙ ap (λ key. contains b (chain key)) key_own
                ∙ ap (contains b) (change_self own (s.next_entry ∷ s.table own) s.table)
                ∙ ap (λ c. contains c (s.next_entry ∷ s.table own)) (sym same)
                ∙ contains_head s.next_entry (s.table own)
            | inr there ↦
                ap (λ e. contains b (chain e.hash_key)) (change_cached b entry there)
                ∙ longer_chain_old s.table s.next_entry b own _ (is.chained b there)
          ]

      linked_aged :
          (key b : ℕ)
          → contains b (change own (s.next_entry ∷ s.table own) s.table key) ≡ true
          → (contains b (mark_recently_used s.next_entry s.lru) ≡ true)
            × ((change s.next_entry entry s.entries b).hash_key ≡ key)
      linked_aged key b h =
          let marked = contains-mark_recently_used s.next_entry b s.lru in
          elim (longer_chain_cases s.table s.next_entry b own key h) [
            | inl (same, at) ↦ (
              ground (arith, marked, same),
              ap (λ e. e.hash_key) (change_next b entry same) ∙ key_own ∙ sym at,
            )
            | inr there ↦
                let (cached, at) = is.aged key b there in
                (
                  ground (arith, cached, marked),
                  ap (λ e. e.hash_key) (change_cached b entry cached) ∙ at,
                )
          ]

  pub linked-IsCache :
      (extra : ℕ) (name : CString) (value : Mapping) (s : Shm Heap)
      → IsCache limit (extra + entry_cost (new_shm_entry name value)) s
      → IsCache limit extra (linked name value s)
  unfolding linked new_shm_entry
  linked-IsCache extra name value s is =
      let entry = new_shm_entry name value in
      let own = str_hash name in
      let more = extra + entry_cost entry in
      let split = mark_recently_used_cases s.next_entry in
      record {
        distinct = mark_recently_used-IsDistinct s.next_entry s.lru is.distinct;
        chain_distinct = λ key. longer_chain-IsDistinct more s is own key;
        fresh = λ b h. elim (split b s.lru h) [
          | inl same ↦ omega (arith, same)
          | inr there ↦ omega (arith, is.fresh b there)
        ];
        named = λ b h. elim (split b s.lru h) [
          | inl same ↦
              let at = change_next more s is b entry same in
              (name, ap (λ e. e.libname) at, ap (λ e. e.hash_key) at)
          | inr there ↦
              let (str, named, key) = is.named b there in
              let at = change_cached more s is b entry there in
              (str, ap (λ e. e.libname) at ∙ named, ap (λ e. e.hash_key) at ∙ key)
        ];
        chained = linked_chained more s is entry own refl;
        aged = linked_aged more s is entry own refl;
        counted = omega (arith, total-linked more s is entry, is.counted);
        bounded = is.bounded;
        limited = is.limited;
      }
