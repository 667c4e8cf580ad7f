-- ===== src/Ilist2.antt =====
-- lib/core/src/ilist2.c: a doubly linked list of slots, linked by indices. A slot's bytes are its
-- user data and its two links; an ilist2_idx_t is its 64-bit pattern, so that (ssize_t)-1 is
-- 2^64 - 1. The nodes are memory cells at their index.
pub mod Chain
pub mod Clear
pub mod Ends
pub mod Puts
pub mod Values
pub mod Steps
pub mod Moves
mod Examples
use scroller.Prelude.{
  ℕ, zero, suc, ◌+◌, ◌-◌, Bool, true, false, ◌==◌, not, if◌then◌else◌, update, List, [], ◌∷◌, ltb,
}

abbrev pub undef : ℕ
undef = 18446744073709551615

pub record Node {ℓ} (A : Type ℓ) : Type ℓ where
  pub value : A
  pub prev : ℕ
  pub next : ℕ

pub record Ilist2 {ℓ} (A : Type ℓ) : Type ℓ where
  pub listsz : ℕ
  pub freelist_head : ℕ
  pub front_idx : ℕ
  pub back_idx : ℕ
  pub nodes : ℕ → Node A

module _ {ℓ} {A : Type ℓ} where
  -- The writes through `nextoffs`, through `prevoffs` and to the user data of one node.
  abbrev pub write_next : (ℕ → Node A) → ℕ → ℕ → ℕ → Node A
  write_next f i v = update f i (record (f i) { next = v })

  abbrev pub write_prev : (ℕ → Node A) → ℕ → ℕ → ℕ → Node A
  write_prev f i v = update f i (record (f i) { prev = v })

  abbrev pub write_value : (ℕ → Node A) → ℕ → A → ℕ → Node A
  write_value f i v = update f i (record (f i) { value = v })

  -- `ilist2_empty`
  abbrev pub is_empty : Ilist2 A → Bool
  is_empty l = l.front_idx == undef

  -- The loop of `ilist2_clear`: `k` rounds from node `i`.
  unfoldable pub clear_loop : ℕ → ℕ → (ℕ → Node A) → ℕ → Node A
  clear_loop zero i f = f
  clear_loop (suc k) i f = clear_loop k (i + 1) (write_next (write_prev f i undef) i (i + 1))

  -- Both loops of `ilist2_clear` over `listsz` nodes, and the head of the freelist.
  unfoldable pub clear_nodes : ℕ → (ℕ → Node A) → (ℕ → Node A) × ℕ
  clear_nodes listsz f =
      let g = clear_loop listsz 0 f in
      if ltb 0 listsz then (write_next g (listsz - 1) undef, 0) else (g, undef)

  unfoldable pub clear : Ilist2 A → Ilist2 A
  clear l =
      let (f, head) = clear_nodes l.listsz l.nodes in
      record l { back_idx = undef; front_idx = undef; freelist_head = head; nodes = f }

  -- `ilist2_init_fn` over the memory `f`.
  unfoldable pub init : (ℕ → Node A) → ℕ → Ilist2 A
  unfolding clear
  init f listsz =
      clear (record { listsz = listsz; freelist_head = 0; front_idx = 0; back_idx = 0; nodes = f })

  -- `ilist2_get_back`, `ilist2_get_front`
  unfoldable pub get_back : Ilist2 A → A
  get_back l = (l.nodes l.back_idx).value

  unfoldable pub get_front : Ilist2 A → A
  get_front l = (l.nodes l.front_idx).value

  -- The list afterwards, and the index of the node that is returned.
  unfoldable pub pop_back_fn : Ilist2 A → Ilist2 A × ℕ
  pop_back_fn l =
      let old = l.back_idx in
      let prev_idx = (l.nodes old).prev in
      let f = write_next l.nodes old l.freelist_head in
      if not (prev_idx == undef)
      then (
        record l {
          nodes = write_next f prev_idx undef;
          freelist_head = l.back_idx;
          back_idx = prev_idx;
        },
        old,
      )
      else (
        record l { nodes = f; freelist_head = l.back_idx; front_idx = undef; back_idx = undef },
        old,
      )

  unfoldable pub pop_front_fn : Ilist2 A → Ilist2 A × ℕ
  pop_front_fn l =
      let old = l.front_idx in
      let next_idx = (l.nodes old).next in
      let f = write_next l.nodes old l.freelist_head in
      if not (next_idx == undef)
      then (
        record l {
          nodes = write_prev f next_idx undef;
          freelist_head = l.front_idx;
          front_idx = next_idx;
        },
        old,
      )
      else (
        record l { nodes = f; freelist_head = l.front_idx; back_idx = undef; front_idx = undef },
        old,
      )

  -- `ilist2_pop_back`, `ilist2_pop_front`: the value that the returned pointer leads to.
  unfoldable pub pop_back : Ilist2 A → Ilist2 A × A
  pop_back l = let (l', i) = pop_back_fn l in (l', (l'.nodes i).value)

  unfoldable pub pop_front : Ilist2 A → Ilist2 A × A
  pop_front l = let (l', i) = pop_front_fn l in (l', (l'.nodes i).value)

  unfoldable pub touch_new_fn : Ilist2 A → Ilist2 A
  touch_new_fn l =
      let i = l.freelist_head in
      record l {
        freelist_head = (l.nodes i).next;
        nodes = write_next (write_prev l.nodes i undef) i undef;
        back_idx = i;
        front_idx = i;
      }

  -- The list afterwards and `*idx`; NULL is returned exactly with `*idx` undefined.
  unfoldable pub touch_back_fn : Ilist2 A → Ilist2 A × ℕ
  unfolding touch_new_fn
  touch_back_fn l =
      let i = l.freelist_head in
      if i == undef
      then (l, i)
      else if is_empty l
      then (touch_new_fn l, i)
      else let f = write_next l.nodes l.back_idx i in
        (
          record l {
            freelist_head = (f i).next;
            nodes = write_next (write_prev f i l.back_idx) i undef;
            back_idx = i;
          },
          i,
        )

  unfoldable pub touch_front_fn : Ilist2 A → Ilist2 A × ℕ
  unfolding touch_new_fn
  touch_front_fn l =
      let i = l.freelist_head in
      if i == undef
      then (l, i)
      else if is_empty l
      then (touch_new_fn l, i)
      else let f = write_prev l.nodes l.front_idx i in
        (
          record l {
            freelist_head = (f i).next;
            nodes = write_next (write_prev f i undef) i l.front_idx;
            front_idx = i;
          },
          i,
        )

  -- `*e = (node)` of the two macros, where `e` is not NULL.
  abbrev pub fill : Ilist2 A × ℕ → A → Ilist2 A × ℕ
  fill (l, i) v = if i == undef then (l, i) else (record l { nodes = write_value l.nodes i v }, i)

  -- `ilist2_put_back`, `ilist2_put_front`
  unfoldable pub put_back : Ilist2 A → A → Ilist2 A × ℕ
  put_back l v = fill (touch_back_fn l) v

  unfoldable pub put_front : Ilist2 A → A → Ilist2 A × ℕ
  put_front l v = fill (touch_front_fn l) v

  -- The bodies of the two moves, given the links that the node has on entry.
  unfoldable pub move_back_from : Ilist2 A → ℕ → ℕ → ℕ → Ilist2 A
  move_back_from l i prev_idx next_idx =
      if next_idx == undef
      then l
      else let f = write_prev l.nodes next_idx prev_idx in
        let front = if prev_idx == undef then next_idx else l.front_idx in
        let g = if prev_idx == undef then f else write_next f prev_idx next_idx in
        let h = write_next g l.back_idx i in
        record l {
          front_idx = front;
          nodes = write_next (write_prev h i l.back_idx) i undef;
          back_idx = i;
        }

  unfoldable pub move_back_by_idx : Ilist2 A → ℕ → Ilist2 A
  move_back_by_idx l i = move_back_from l i (l.nodes i).prev (l.nodes i).next

  unfoldable pub move_front_from : Ilist2 A → ℕ → ℕ → ℕ → Ilist2 A
  move_front_from l i prev_idx next_idx =
      if prev_idx == undef
      then l
      else let f = write_next l.nodes prev_idx next_idx in
        let back = if next_idx == undef then prev_idx else l.back_idx in
        let g = if next_idx == undef then f else write_prev f next_idx prev_idx in
        let h = write_prev g l.front_idx i in
        record l {
          back_idx = back;
          nodes = write_next (write_prev h i undef) i l.front_idx;
          front_idx = i;
        }

  unfoldable pub move_front_by_idx : Ilist2 A → ℕ → Ilist2 A
  move_front_by_idx l i = move_front_from l i (l.nodes i).prev (l.nodes i).next
