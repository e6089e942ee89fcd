-- ===== src/Blockstore/Lru.antt =====
-- blockstore/car_blockstore.go: `LRUBlockstore`, with its doubly-linked list on a heap of nodes.
-- A pointer is a number, `none` is nil, and an allocation takes the next number, so that a pointer
-- that is not nil always has a node. The CIDs are a type `K` with `==`.
pub mod Cache
pub mod Chain
pub mod Ends
pub mod Repr
pub mod Moves
pub mod Removes
pub mod Loop
pub mod Represents
pub mod Refinement
pub mod Queries
pub mod Runs
mod Tests
use ipfs_content.Prelude.{
  ℕ, zero, suc, ◌+◌, ◌-◌, ◌%◌, Bool, true, false, ◌&&◌, Option, none, some, List, [], ◌∷◌, ltb,
  if◌then◌else◌, length, Result, ok, err, ◌>>=◌, Comparable, ◌==◌, nat_eq, Map, lookup, delete,
  insert, map,
}
use ipfs_content.Blockstore.{Bytes, Block, u64}

pub record LruNode (K : Type 0) : Type 0 where
  pub cid : K
  pub data_of : Bytes
  pub prev : Option ℕ
  pub next : Option ℕ

abbrev pub Heap : Type 0 → Type 0
Heap K = ℕ → LruNode K

pub record LruBlockstore (K : Type 0) : Type 0 where
  pub blocks : Map K ℕ
  pub size : ℕ
  pub limit : ℕ
  pub head : Option ℕ
  pub tail : Option ℕ
  pub nodes : Heap K
  pub fresh : ℕ

-- How a call can end early: a nil dereference, the model's fuel, or an error of the code.
pub data LruError : Type 0 where
  nil_dereference out_of_fuel not_found bad_block : LruError

-- Pointers are compared by address.
abbrev pub ptr_eq : Option ℕ → Option ℕ → Bool
ptr_eq none none = true
ptr_eq (some p) (some q) = p == q
ptr_eq _ _ = false

-- `if b.tail == nil { b.tail = node }`
abbrev pub or_self : ℕ → Option ℕ → Option ℕ
or_self a none = some a
or_self a (some t) = some t

module _ {K : Type 0} where
  abbrev pub write : Heap K → ℕ → LruNode K → Heap K
  write h p n q = if q == p then n else h q

  -- `if p != nil { p.next = v }`
  abbrev pub set_next : Option ℕ → Option ℕ → Heap K → Heap K
  set_next none v h = h
  set_next (some p) v h = write h p (record (h p) { next = v })

  -- `if p != nil { p.prev = v }`
  abbrev pub set_prev : Option ℕ → Option ℕ → Heap K → Heap K
  set_prev none v h = h
  set_prev (some p) v h = write h p (record (h p) { prev = v })

  -- NewLRUBlockstore
  unfoldable pub new_lru_blockstore : LruNode K → ℕ → LruBlockstore K
  new_lru_blockstore blank size_limit = record {
    blocks = [];
    size = 0;
    limit = size_limit;
    head = none;
    tail = none;
    nodes = λ p. blank;
    fresh = 0;
  }

  -- The four writes that take a node out of the list, as moveToFront and DeleteBlock make them.
  unfoldable pub unlink : ℕ → Heap K → Heap K
  unlink a h = let h' = set_next (h a).prev (h a).next h in set_prev (h' a).next (h' a).prev h'

  unfoldable pub add_to_front : ℕ → LruBlockstore K → LruBlockstore K
  add_to_front a b =
      let h = set_next (some a) b.head (set_prev (some a) none b.nodes) in
      record b { nodes = set_prev b.head (some a) h; head = some a; tail = or_self a b.tail }

  unfoldable pub move_to_front : ℕ → LruBlockstore K → LruBlockstore K
  unfolding unlink add_to_front
  move_to_front a b =
      if ptr_eq (some a) b.head
      then b
      else let h = unlink a b.nodes in
        add_to_front a
          (record b { nodes = h; tail = if ptr_eq (some a) b.tail then (h a).prev else b.tail })

module _ {K : Type 0} ⦃e : Comparable K⦄ where
  -- `b.tail = b.tail.prev; b.tail.next = nil`: the last write must not go through nil.
  unfoldable pub cut_tail : Option ℕ → LruBlockstore K → Result LruError (LruBlockstore K)
  cut_tail none b = err nil_dereference
  cut_tail (some q) b = ok (record b { tail = some q; nodes = set_next (some q) none b.nodes })

  unfoldable pub evict_tail : ℕ → LruBlockstore K → Result LruError (LruBlockstore K)
  unfolding cut_tail
  evict_tail t b =
      let b' = record b {
        blocks = delete (b.nodes t).cid b.blocks;
        size = (b.size + u64 - length (b.nodes t).data_of) % u64;
      } in
      if ptr_eq b.head b.tail
      then ok (record b' { head = none; tail = none })
      else cut_tail (b.nodes t).prev b'

  -- `if b.tail == nil { return }`
  unfoldable pub evict_at : Option ℕ → LruBlockstore K → Result LruError (LruBlockstore K)
  unfolding evict_tail
  evict_at none b = ok b
  evict_at (some t) b = evict_tail t b

  unfoldable pub evict_one : LruBlockstore K → Result LruError (LruBlockstore K)
  unfolding evict_at
  evict_one b = evict_at b.tail b

  -- The loop of Put. Each round is given one unit of fuel.
  unfoldable pub evict_until : ℕ → ℕ → LruBlockstore K → Result LruError (LruBlockstore K)
  evict_until zero block_size b = err out_of_fuel
  evict_until (suc fuel) block_size b =
      let again = evict_one b >>= evict_until fuel block_size in
      if ltb b.limit ((b.size + block_size) % u64) && ltb 0 (length b.blocks) then again else ok b

  -- `node := &lruNode{cid: c, data: data}` and what follows it
  unfoldable pub put_new : Block K → LruBlockstore K → LruBlockstore K
  unfolding add_to_front
  put_new blk b =
      let a = b.fresh in
      let node : LruNode K = record {
        cid = blk.cid;
        data_of = blk.data_of;
        prev = none;
        next = none;
      } in
      let b' = add_to_front a (record b { nodes = write b.nodes a node; fresh = a + 1 }) in
      record b' { blocks = insert blk.cid a b'.blocks; size = (b'.size + length blk.data_of) % u64 }

  unfoldable pub put : Block K → LruBlockstore K → Result LruError (LruBlockstore K)
  unfolding move_to_front evict_until evict_one put_new
  put blk b = elim (lookup blk.cid b.blocks) [
    | some a ↦ ok (move_to_front a b)
    | none ↦ evict_until (length b.blocks + 1) (length blk.data_of) b >>= λ b'. ok (put_new blk b')
  ]

  unfoldable pub put_many : List (Block K) → LruBlockstore K → Result LruError (LruBlockstore K)
  unfolding put
  put_many [] b = ok b
  put_many (blk ∷ rest) b = put blk b >>= put_many rest

  -- `new_block` is blocks.NewBlockWithCid of go-block-format; it fails with `none`.
  unfoldable pub get :
      (Bytes → K → Option (Block K))
      → K
      → LruBlockstore K
      → Result LruError (Block K) × LruBlockstore K
  unfolding move_to_front
  get new_block c b = elim (lookup c b.blocks) [
    | none ↦ (err not_found, b)
    | some a ↦
        let b' = move_to_front a b in
        (elim (new_block (b'.nodes a).data_of c) [ none ↦ err bad_block | some blk ↦ ok blk ], b')
  ]

  -- The -1 beside the error is not modelled.
  unfoldable pub get_size : K → LruBlockstore K → Result LruError ℕ
  get_size c b = elim (lookup c b.blocks) [
    | none ↦ err not_found
    | some a ↦ ok (length (b.nodes a).data_of)
  ]

  unfoldable pub has : K → LruBlockstore K → Bool
  has c b = elim (lookup c b.blocks) [ none ↦ false | some a ↦ true ]

  unfoldable pub delete_node : K → ℕ → LruBlockstore K → LruBlockstore K
  unfolding unlink
  delete_node c a b =
      let h = unlink a b.nodes in
      record b {
        size = (b.size + u64 - length (b.nodes a).data_of) % u64;
        blocks = delete c b.blocks;
        nodes = h;
        head = if ptr_eq (some a) b.head then (h a).next else b.head;
        tail = if ptr_eq (some a) b.tail then (h a).prev else b.tail;
      }

  unfoldable pub delete_block : K → LruBlockstore K → LruBlockstore K
  unfolding delete_node
  delete_block c b = elim (lookup c b.blocks) [ none ↦ b | some a ↦ delete_node c a b ]

module _ {K : Type 0} where
  -- AllKeysChan sends the keys of the map; a map's order is not specified.
  unfoldable pub all_keys : LruBlockstore K → List K
  all_keys b = map (λ kv. kv.0) b.blocks

  unfoldable pub size_of : LruBlockstore K → ℕ
  size_of b = b.size

  unfoldable pub len : LruBlockstore K → ℕ
  len b = length b.blocks
