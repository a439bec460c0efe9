-- ===== src/HTable.antt =====
-- libyod/htable.c: a chained hash table whose nodes also stand in one list in order of insertion.
-- A pointer is a number and NULL is 0. Each field of the nodes is a map from addresses, so that
-- `node->next = x` is an update of the map `next`. `self` is not NULL: that guard is the caller's.
-- `none` is undefined behaviour (a read outside `nodes`), or a loop that ran out of fuel.
pub mod Chain
pub mod Valid
pub mod Resize
pub mod Key
pub mod Append
pub mod Add
pub mod Unlink
pub mod Del
pub mod Hash
pub mod Release
pub mod Cursor
mod Tests
use libyod.Prelude.{
  ℕ, zero, suc, ◌+◌, ◌-◌, ◌*◌, ◌%◌, ◌^◌, bit_and, Bool, true, false, not, ◌&&◌, Option, none, some,
  List, [], ◌∷◌, ◌++◌, ltb, leb, ◌==◌, if◌then◌else◌, length, get_elem?, set, replicate, ◌>>=◌, Ret,
  ok, fail,
}
use libyod.Links.{update}

pub record HTable : Type 0 where
  pub size : ℕ
  pub mask : ℕ
  pub count : ℕ
  pub is_ref : ℕ
  pub nodes : List ℕ
  pub head : ℕ
  pub tail : ℕ
  pub curr : ℕ
  pub num_key : ℕ → ℕ
  pub str_key : ℕ → List ℕ
  pub key_len : ℕ → ℕ
  pub value : ℕ → ℕ
  pub next : ℕ → ℕ
  pub prev : ℕ → ℕ
  pub v_next : ℕ → ℕ
  pub v_prev : ℕ → ℕ
  -- whether `vfree` is given, and the values that it was called with, oldest first
  pub vfree : Bool
  pub released : List ℕ

-- `yod_htable_new`, where neither allocation fails.
unfoldable pub new : Bool → HTable
new vfree = record {
  size = 8;
  mask = 7;
  count = 0;
  is_ref = 0;
  nodes = replicate 8 0;
  head = 0;
  tail = 0;
  curr = 0;
  num_key = λ _. 0;
  str_key = λ _. [];
  key_len = λ _. 0;
  value = λ _. 0;
  next = λ _. 0;
  prev = λ _. 0;
  v_next = λ _. 0;
  v_prev = λ _. 0;
  vfree = vfree;
  released = [];
}

-- `memcmp(a, b, n) == 0`
unfoldable pub bytes_eq : ℕ → List ℕ → List ℕ → Bool
bytes_eq zero a b = true
bytes_eq (suc n) (x ∷ a) (y ∷ b) = x == y && bytes_eq n a b
bytes_eq (suc n) _ _ = false

-- The test in the loops over a chain.
unfoldable pub matches : HTable → ℕ → List ℕ → ℕ → Bool
unfolding bytes_eq
matches t nk str node =
    t.num_key node == nk
    && t.key_len node == length str
    && bytes_eq (length str) (t.str_key node) str

-- `for (node = ...; node != NULL; node = node->v_next) if (...) break;`
unfoldable pub scan : ℕ → HTable → ℕ → List ℕ → ℕ → Option ℕ
scan zero t nk str node = none
scan (suc fuel) t nk str node =
    let rest = scan fuel t nk str (t.v_next node) in
    if node == 0 then some 0 else if matches t nk str node then some node else rest

-- One character of the hash, a signed `char` that is widened to `ulong`.
unfoldable pub hash_step : ℕ → ℕ → ℕ
hash_step n c = (n * 32 + n + (if ltb c 128 then c else c + (2 ^ 64 - 256))) % 2 ^ 64

-- `switch (key_len)`, which falls through its cases.
unfoldable pub str_nkey_tail : ℕ → List ℕ → ℕ
unfolding hash_step
str_nkey_tail n (a ∷ b ∷ c ∷ d ∷ e ∷ f ∷ g ∷ _) =
    let n1 = hash_step n a in
    let n2 = hash_step n1 b in
    let n3 = hash_step n2 c in
    let n4 = hash_step n3 d in let n5 = hash_step n4 e in let n6 = hash_step n5 f in hash_step n6 g
str_nkey_tail n (a ∷ b ∷ c ∷ d ∷ e ∷ f ∷ []) =
    hash_step (hash_step (hash_step (hash_step (hash_step (hash_step n a) b) c) d) e) f
str_nkey_tail n (a ∷ b ∷ c ∷ d ∷ e ∷ []) =
    hash_step (hash_step (hash_step (hash_step (hash_step n a) b) c) d) e
str_nkey_tail n (a ∷ b ∷ c ∷ d ∷ []) = hash_step (hash_step (hash_step (hash_step n a) b) c) d
str_nkey_tail n (a ∷ b ∷ c ∷ []) = hash_step (hash_step (hash_step n a) b) c
str_nkey_tail n (a ∷ b ∷ []) = hash_step (hash_step n a) b
str_nkey_tail n (a ∷ []) = hash_step n a
str_nkey_tail n [] = n

-- The loop that takes eight characters in a round, then the rest.
unfoldable pub str_nkey_loop : ℕ → List ℕ → ℕ
unfolding hash_step str_nkey_tail
str_nkey_loop n (a ∷ b ∷ c ∷ d ∷ e ∷ f ∷ g ∷ h ∷ str) =
    let n4 = hash_step (hash_step (hash_step (hash_step n a) b) c) d in
    let n8 = hash_step (hash_step (hash_step (hash_step n4 e) f) g) h in str_nkey_loop n8 str
str_nkey_loop n str = str_nkey_tail n str

unfoldable pub str_nkey : List ℕ → ℕ
unfolding str_nkey_loop
str_nkey str = str_nkey_loop 5381 str

-- `if (key_len > 0) num_key = _yod_htable_str_nkey(str_key, key_len);`
unfoldable pub key_of : ℕ → List ℕ → ℕ
key_of num str = if ltb 0 (length str) then str_nkey str else num

-- The search that add, del and find share: the chain's index and the node found, NULL if none.
unfoldable pub locate : HTable → ℕ → List ℕ → Option (ℕ × ℕ)
locate t nk str = do
  let k = bit_and nk t.mask
  first ← get_elem? t.nodes k
  node ← scan (suc t.count) t nk str first
  some (k, node)

unfoldable pub find : HTable → ℕ → List ℕ → Option ℕ
find t num str = do
  (_, node) ← locate t (key_of num str) str
  some (if node == 0 then 0 else t.value node)

-- A node is put in front of chain `k`: `node->v_next = nodes[k]; ... nodes[k] = node;`
unfoldable pub put_front : HTable → ℕ → ℕ → ℕ → HTable
put_front t k node first =
    let v_prev' = update t.v_prev node 0 in
    record t {
      v_next = update t.v_next node first;
      v_prev = if first == 0 then v_prev' else update v_prev' first node;
      nodes = set t.nodes k node;
    }

unfoldable pub link_front : HTable → ℕ → ℕ → Option HTable
link_front t k node = do first ← get_elem? t.nodes k; some (put_front t k node first)

-- The loop of resize over the list.
unfoldable pub relink : ℕ → HTable → ℕ → Option HTable
unfolding link_front
relink zero t node = none
relink (suc fuel) t node = elim (node == 0) [
  | true ↦ some t
  | false ↦
      link_front t (bit_and (t.num_key node) t.mask) node >>= λ t'. relink fuel t' (t'.next node)
]

-- `room` is false where `realloc` fails; the result code of resize is not used.
unfoldable pub resize : Bool → HTable → Option HTable
unfolding relink
resize room t =
    let size' = t.size * 2 % 2 ^ 64 in
    let wider = record t {
      size = size';
      mask = (size' + 2 ^ 64 - 1) % 2 ^ 64 % 2 ^ 32;
      nodes = replicate size' 0;
    } in
    if size' == 0
    then some t
    else if ltb t.count t.size
    then some t
    else if room
    then relink (suc t.count) wider t.head
    else some t

-- A node that holds the key is given the new value, if `force` is set.
unfoldable pub overwrite : HTable → ℕ → ℕ → Bool → HTable × Ret
overwrite t node val force =
    if force
    then (
      record t {
        value = update t.value node val;
        released = if t.vfree then t.released ++ (t.value node ∷ []) else t.released;
      },
      ok,
    )
    else (t, fail)

-- `if (key_len > 0) { str_key = malloc(key_len + 1); memcpy(str_key, ...); }`: `copied` is false where
-- this `malloc` fails, which the code does not look at, so that it stores through NULL.
unfoldable pub copy_key : Bool → List ℕ → Option (List ℕ)
copy_key copied str = if ltb 0 (length str) && not copied then none else some str

-- `str` is the copy of the key. The fields of a new node at address `node`, and `if (self->tail) self->tail->next = node;`
unfoldable pub fill_node : HTable → ℕ → ℕ → List ℕ → ℕ → HTable
fill_node t node nk str val =
    let next' = update t.next node 0 in
    record t {
      num_key = update t.num_key node nk;
      str_key = update t.str_key node str;
      key_len = update t.key_len node (length str);
      value = update t.value node val;
      next = if t.tail == 0 then next' else update next' t.tail node;
      prev = update t.prev node t.tail;
    }

-- `self->tail = node; if (!self->head) self->head = node; self->count++;`
unfoldable pub count_node : HTable → ℕ → HTable
count_node t node = record t {
  tail = node;
  head = if t.head == 0 then node else t.head;
  count = (t.count + 1) % 2 ^ 64;
}

-- A new node at address `node`, in front of chain `k` and at the end of the list.
unfoldable pub append_node : Bool → HTable → ℕ → ℕ → ℕ → List ℕ → ℕ → Option HTable
unfolding copy_key
append_node copied t k node nk str val = do
  text ← copy_key copied str
  t' ← link_front (fill_node t node nk text val) k node
  some (count_node t' node)

-- `fresh` is what `malloc` returns for the node, NULL where it fails; `copied` is false where the
-- `malloc` for the copy of the key fails.
unfoldable pub add : Bool → ℕ → Bool → HTable → ℕ → List ℕ → ℕ → Bool → Option (HTable × Ret)
unfolding resize overwrite append_node
add room fresh copied t num str val force = do
  t' ← if leb t.size t.count then resize room t else some t
  let nk = key_of num str
  (k, node) ← locate t' nk str
  if not (node == 0)
      then some (overwrite t' node val force)
      else if fresh == 0
      then some (t', fail)
      else append_node copied t' k fresh nk str val >>= λ t''. some (t'', ok)

-- `if (!node->next) { tail = node->prev; if (tail) tail->next = NULL; }`
-- `else node->next->prev = node->prev;`
unfoldable pub unlink_tail : HTable → ℕ → HTable
unlink_tail t node =
    let is_last = t.next node == 0 in
    record t {
      tail = if is_last then t.prev node else t.tail;
      next =
          if is_last
          then (if t.prev node == 0 then t.next else update t.next (t.prev node) 0)
          else t.next;
      prev = if is_last then t.prev else update t.prev (t.next node) (t.prev node);
    }

-- `if (!node->prev) { head = node->next; if (head) head->prev = NULL; }`
-- `else node->prev->next = node->next;`
unfoldable pub unlink_head : HTable → ℕ → HTable
unlink_head t node =
    let is_first = t.prev node == 0 in
    record t {
      head = if is_first then t.next node else t.head;
      prev =
          if is_first
          then (if t.next node == 0 then t.prev else update t.prev (t.next node) 0)
          else t.prev;
      next = if is_first then t.next else update t.next (t.prev node) (t.next node);
    }

-- `if (node->v_next) node->v_next->v_prev = node->v_prev;`
-- `if (!node->v_prev) nodes[k] = node->v_next; else node->v_prev->v_next = node->v_next;`
unfoldable pub unlink_chain : HTable → ℕ → ℕ → HTable
unlink_chain t k node =
    let v_prev' =
      if t.v_next node == 0 then t.v_prev else update t.v_prev (t.v_next node) (t.v_prev node) in
    let is_first = v_prev' node == 0 in
    record t {
      v_prev = v_prev';
      nodes = if is_first then set t.nodes k (t.v_next node) else t.nodes;
      v_next = if is_first then t.v_next else update t.v_next (v_prev' node) (t.v_next node);
    }

-- What del does to the node that it found.
unfoldable pub remove_node : HTable → ℕ → ℕ → HTable
unfolding unlink_tail unlink_head unlink_chain
remove_node t k node =
    let t' = unlink_chain (unlink_head (unlink_tail t node) node) k node in
    record t' {
      released = if t.vfree then t.released ++ (t.value node ∷ []) else t.released;
      count = (t'.count + 2 ^ 64 - 1) % 2 ^ 64;
    }

-- `del` returns 0 whether it found the key or not.
unfoldable pub del : HTable → ℕ → List ℕ → Option (HTable × Ret)
unfolding remove_node
del t num str = do
  (k, node) ← locate t (key_of num str) str
  some (if node == 0 then t else remove_node t k node, ok)

unfoldable pub count_of : HTable → ℕ
count_of t = t.count

-- What the cursor operations write through their pointers, and return: number, text, length, value.
abbrev pub Entry : Type 0
Entry = ℕ × List ℕ × ℕ × ℕ

abbrev entry_of : HTable → ℕ → Entry
entry_of t node = (t.num_key node, t.str_key node, t.key_len node, t.value node)

-- The cursor moves to `node` and its entry is returned; at NULL nothing happens.
unfoldable pub visit : HTable → ℕ → HTable × Option Entry
visit t node = if node == 0 then (t, none) else (record t { curr = node }, some (entry_of t node))

unfoldable pub to_head : HTable → HTable × Option Entry
unfolding visit
to_head t = visit t t.head

unfoldable pub to_tail : HTable → HTable × Option Entry
unfolding visit
to_tail t = visit t t.tail

unfoldable pub to_next : HTable → HTable × Option Entry
unfolding visit
to_next t = if t.curr == 0 then (t, none) else visit t (t.next t.curr)

unfoldable pub to_prev : HTable → HTable × Option Entry
unfolding visit
to_prev t = if t.curr == 0 then (t, none) else visit t (t.prev t.curr)

unfoldable pub ref : HTable → HTable
ref t = record t { is_ref = (t.is_ref + 1) % 2 ^ 64 }

-- The loop of free and of reset: every value from `node` on goes to `vfree`.
unfoldable pub release : ℕ → HTable → ℕ → Option HTable
release zero t node = none
release (suc fuel) t node = elim (node == 0) [
  | true ↦ some t
  | false ↦
      release fuel
        (record t { released = if t.vfree then t.released ++ (t.value node ∷ []) else t.released })
        (t.next node)
]

-- The table that is left, and whether it was freed.
unfoldable pub free : HTable → Option (HTable × Bool)
unfolding release
free t =
    if ltb 0 t.is_ref
    then some (record t { is_ref = t.is_ref - 1 }, false)
    else release (suc t.count) t t.head >>= λ t'. some (t', true)

-- The loop stands behind `self->head = NULL`, and starts from that field.
unfoldable pub reset : HTable → Option HTable
unfolding release
reset t =
    let t' = record t { count = 0; head = 0; tail = 0; curr = 0; nodes = replicate t.size 0 } in
    release (suc t.count) t' t'.head
