-- ===== src/RbTree/Add/Neighbours.antt =====
-- libyod/rbtree.c: the place of the new node in the list is its place in the tree.
use libyod.Prelude.{
  ℕ, ◌≤◌, ◌<◌, ◌≡◌, refl, sym, ap, ◌∙◌, subst, ◌≢◌, true, false, List, [], ◌∷◌, ◌++◌, append_assoc,
  arith, ltb, leb, lt→ltb, length, All,
}
use libyod.Links.{
  update, update_ne, update_self, update_guarded, first_or, last_or, Linked, Absent, Distinct,
  NonNull, All-append, last_or-append, last_or-In,
}
use libyod.Links.Edit.{Linked-neighbours, first_or-ne}
use libyod.Links.Insert.{Linked-insert}
use libyod.RbTree.State.{RbTree}
use libyod.RbTree.Insert.{attach, link_neighbours, extend_ends}
use libyod.RbTree.Tree.{Step, down_left, down_right, Way, ids, before, after}
use libyod.RbTree.Holds.{node_of}
use libyod.RbTree.Order.{Parted, All-In}
use libyod.RbTree.Place.{hung}

-- The tree behind attach.
abbrev pub attached : RbTree → ℕ → Step → Way → RbTree
attached t x step path = record t {
  shape = hung t.shape step path x;
  next = update t.next x (first_or 0 (after (step ∷ path)));
  prev = update t.prev x (last_or 0 (before (step ∷ path)));
}

not_ltb : (m n : ℕ) → n ≤ m → ltb m n ≡ false
not_ltb m n le = ground arith

module _ (t : RbTree) (x : ℕ) where
  attach_left :
      (p f l : ℕ)
      → ltb (t.key x) (t.key p) ≡ true
      → f ≡ p
      → l ≡ t.prev p
      → attach t x p ≡ record t {
        shape = record t.shape {
          parent = update t.shape.parent x p;
          left = update t.shape.left p x;
        };
        next = update t.next x f;
        prev = update t.prev x l;
      }
  unfolding attach
  attach_left p f l e ef el = rw (e, ef, el)

  attach_right :
      (p f l : ℕ)
      → ltb (t.key x) (t.key p) ≡ false
      → f ≡ t.next p
      → l ≡ p
      → attach t x p ≡ record t {
        shape = record t.shape {
          parent = update t.shape.parent x p;
          right = update t.shape.right p x;
        };
        next = update t.next x f;
        prev = update t.prev x l;
      }
  unfolding attach
  attach_right p f l e ef el = rw (e, ef, el)

  pub attach_lem :
      (step : Step) (path : Way)
      → Parted t.key (t.key x) (step ∷ path)
      → Linked t.next t.prev 0 (before (step ∷ path) ++ after (step ∷ path)) 0
      → attach t x (node_of step) ≡ attached t x step path
  attach_lem (down_left c a r) path (front, (above, _)) links =
      let (back, _) = Linked-neighbours t.next t.prev (before path) a (ids r ++ after path) links in
      attach_left a a (last_or 0 (before path)) (lt→ltb (t.key x) (t.key a) above) refl (sym back)
  attach_lem (down_right c l a) path (front, _) links =
      let xs = before path ++ ids l in
      let last : last_or 0 (before path ++ (ids l ++ (a ∷ []))) ≡ a =
        last_or-append 0 (before path) (ids l ++ (a ∷ []))
        ∙ last_or-append (last_or 0 (before path)) (ids l) (a ∷ []) in
      let split : before (down_right c l a ∷ path) ++ after path ≡ xs ++ (a ∷ after path) =
        append_assoc (before path) (ids l ++ (a ∷ [])) (after path)
        ∙ ap (λ z. before path ++ z) (append_assoc (ids l) (a ∷ []) (after path))
        ∙ sym (append_assoc (before path) (ids l) (a ∷ after path)) in
      let (_, on) =
        Linked-neighbours t.next t.prev xs a (after path)
          (subst (λ zs. Linked t.next t.prev 0 zs 0) split links) in
      let at_most =
        ((All-append (λ b. t.key b ≤ t.key x) (ids l) (a ∷ [])).0
          ((All-append (λ b. t.key b ≤ t.key x) (before path) (ids l ++ (a ∷ []))).0
            front).1).1.0 in
      attach_right a (first_or 0 (after path)) (last_or 0 (before path ++ (ids l ++ (a ∷ []))))
        (not_ltb (t.key x) (t.key a) at_most) (sym on) last

-- The tree behind link_neighbours.
abbrev pub linked_in : RbTree → ℕ → Step → Way → RbTree
linked_in t x step path = link_neighbours (attached t x step path) x

-- The neighbours in the list are linked with the new node.
module _ (t : RbTree) (x : ℕ) (step : Step) (path : Way) (pos : 0 < x)
    (absent : Absent x (before (step ∷ path) ++ after (step ∷ path)))
    (non_null : NonNull (before (step ∷ path) ++ after (step ∷ path)))
    (distinct : Distinct (before (step ∷ path) ++ after (step ∷ path)))
    (links : Linked t.next t.prev 0 (before (step ∷ path) ++ after (step ∷ path)) 0) where
  abbrev xs : List ℕ
  xs = before (step ∷ path)

  abbrev ys : List ℕ
  ys = after (step ∷ path)

  not_first : first_or 0 ys ≢ x
  not_first = first_or-ne x ys pos ((All-append (λ b. b ≢ x) xs ys).0 absent).1

  link_prev :
      (b : ℕ)
      → 0 < b
      → (linked_in t x step path).prev b
        ≡ update (update t.prev x (last_or 0 xs)) (first_or 0 ys) x b
  unfolding link_neighbours
  link_prev b b_pos =
      update_guarded (update t.prev x (last_or 0 xs)) (update t.next x (first_or 0 ys) x) x b b_pos
      ∙ ap (λ w. update (update t.prev x (last_or 0 xs)) w x b)
          (update_self t.next x (first_or 0 ys))

  prev_x : (linked_in t x step path).prev x ≡ last_or 0 xs
  prev_x =
      link_prev x pos
      ∙ update_ne (update t.prev x (last_or 0 xs)) (first_or 0 ys) x x (λ e. not_first (sym e))
      ∙ update_self t.prev x (last_or 0 xs)

  link_next :
      (b : ℕ)
      → 0 < b
      → (linked_in t x step path).next b
        ≡ update (update t.next x (first_or 0 ys)) (last_or 0 xs) x b
  unfolding link_neighbours
  link_next b b_pos =
      update_guarded (update t.next x (first_or 0 ys)) ((linked_in t x step path).prev x) x b b_pos
      ∙ ap (λ w. update (update t.next x (first_or 0 ys)) w x b) prev_x

  pub linked_in-Linked :
      Linked (linked_in t x step path).next (linked_in t x step path).prev 0 (xs ++ (x ∷ ys)) 0
  linked_in-Linked =
      Linked-insert t.next t.prev (linked_in t x step path).next (linked_in t x step path).prev xs
        ys x pos non_null distinct absent link_next link_prev links

-- The ends of the list.
module _ (t : RbTree) (x : ℕ) where
  ends_first :
      t.key x < t.key t.head → ((extend_ends t x).head ≡ x) × ((extend_ends t x).tail ≡ t.tail)
  unfolding extend_ends
  ends_first lt =
      let e : ltb (t.key x) (t.key t.head) ≡ true = ground arith in (rw e refl, rw e refl)

  ends_last :
      t.key t.head ≤ t.key x
      → t.key t.tail ≤ t.key x
      → ((extend_ends t x).head ≡ t.head) × ((extend_ends t x).tail ≡ x)
  unfolding extend_ends
  ends_last le le' =
      let e : ltb (t.key x) (t.key t.head) ≡ false = ground arith in
      let e' : leb (t.key t.tail) (t.key x) ≡ true = ground arith in (rw e refl, rw (e, e') refl)

  ends_middle :
      t.key t.head ≤ t.key x
      → t.key x < t.key t.tail
      → ((extend_ends t x).head ≡ t.head) × ((extend_ends t x).tail ≡ t.tail)
  unfolding extend_ends
  ends_middle le lt =
      let e : ltb (t.key x) (t.key t.head) ≡ false = ground arith in
      let e' : leb (t.key t.tail) (t.key x) ≡ false = ground arith in (rw e refl, rw (e, e') refl)

  pub extend_ends_lem :
      (xs ys : List ℕ)
      → All (λ b. t.key b ≤ t.key x) xs
      → All (λ b. t.key x < t.key b) ys
      → 0 < length (xs ++ ys)
      → t.head ≡ first_or 0 (xs ++ ys)
      → t.tail ≡ last_or 0 (xs ++ ys)
      → ((extend_ends t x).head ≡ first_or 0 (xs ++ (x ∷ ys)))
        × ((extend_ends t x).tail ≡ last_or 0 (xs ++ (x ∷ ys)))
  extend_ends_lem [] [] front back some_node head tail = absurd (omega arith)
  extend_ends_lem [] (y ∷ ys) front (above, _) some_node head tail =
      let (h, l) = ends_first (rw head above) in (h, l ∙ tail)
  extend_ends_lem (a ∷ xs) [] (at_most, front) back some_node head tail =
      let last = tail ∙ last_or-append 0 (a ∷ xs) [] in
      let last_le =
        All-In (λ b. t.key b ≤ t.key x) (a ∷ xs) (last_or a xs) (last_or-In 0 a xs)
          (at_most, front) in
      let (h, l) = ends_last (rw head at_most) (rw last last_le) in
      (h ∙ head, l ∙ sym (last_or-append 0 (a ∷ xs) (x ∷ [])))
  extend_ends_lem (a ∷ xs) (y ∷ ys) (at_most, front) back some_node head tail =
      let last = tail ∙ last_or-append 0 (a ∷ xs) (y ∷ ys) in
      let last_gt =
        All-In (λ b. t.key x < t.key b) (y ∷ ys) (last_or y ys) (last_or-In 0 y ys) back in
      let (h, l) = ends_middle (rw head at_most) (rw last last_gt) in
      (h ∙ head, l ∙ last ∙ sym (last_or-append 0 (a ∷ xs) (x ∷ y ∷ ys)))
