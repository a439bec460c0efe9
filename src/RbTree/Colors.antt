-- ===== src/RbTree/Colors.antt =====
-- libyod/rbtree.c: what makes a tree red-black, for trees and for what stands above a hole.
use libyod.Prelude.{
  ℕ, ◌+◌, ◌≡◌, refl, sym, subst, Bool, true, false, ◌&&◌, [], ◌∷◌, arith, if◌then◌else◌,
}
use libyod.RbTree.Tree.{Tree, tip, fork, down_left, down_right, Way, plug}
use libyod.RbTree.Holds.{is_red}

-- The number of black nodes on the way down.
abbrev pub black : Bool → ℕ
black c = if c then 0 else 1

abbrev pub height : Tree → ℕ
height tip = 0
height (fork c l a r) = height l + black c

abbrev pub Bal : Tree → Type 0
Bal tip = Unit {0}
Bal (fork c l a r) = (height l ≡ height r) × Bal l × Bal r

-- What stands above a hole for a tree of this height.
abbrev pub BalPath : ℕ → Way → Type 0
BalPath h [] = Unit {0}
BalPath h (down_left c a r ∷ path) = (h ≡ height r) × Bal r × BalPath (h + black c) path
BalPath h (down_right c l a ∷ path) = (height l ≡ h) × Bal l × BalPath (h + black c) path

-- Not both are red.
abbrev pub Quiet : Bool → Bool → Type 0
Quiet c d = (c && d) ≡ false

-- No red node has a red child.
abbrev pub Calm : Tree → Type 0
Calm tip = Unit {0}
Calm (fork c l a r) = (Quiet c (is_red l) × Quiet c (is_red r)) × Calm l × Calm r

-- What stands above a hole for a tree whose root has this color; the root of all is black.
abbrev pub CalmPath : Bool → Way → Type 0
CalmPath b [] = b ≡ false
CalmPath b (down_left c a r ∷ path) = (Quiet c b × Quiet c (is_red r)) × Calm r × CalmPath c path
CalmPath b (down_right c l a ∷ path) = (Quiet c (is_red l) × Quiet c b) × Calm l × CalmPath c path

pub Bal-plug : (path : Way) (t : Tree) → Bal t → BalPath (height t) path → Bal (plug path t)
Bal-plug [] t bal h = bal
Bal-plug (down_left c a r ∷ path) t bal (e, bal_r, h) =
    Bal-plug path (fork c t a r) (e, bal, bal_r) h
Bal-plug (down_right c l a ∷ path) t bal (e, bal_l, h) =
    Bal-plug path (fork c l a t) (e, bal_l, bal) (subst (λ n. BalPath (n + black c) path) (sym e) h)

pub Calm-plug :
    (path : Way) (t : Tree)
    → Calm t
    → CalmPath (is_red t) path
    → Calm (plug path t) × (is_red (plug path t) ≡ false)
Calm-plug [] t calm h = (calm, h)
Calm-plug (down_left c a r ∷ path) t calm (quiet, calm_r, h) =
    Calm-plug path (fork c t a r) (quiet, calm, calm_r) h
Calm-plug (down_right c l a ∷ path) t calm (quiet, calm_l, h) =
    Calm-plug path (fork c l a t) (quiet, calm_l, calm) h

-- The other way round.
pub BalPath-unplug : (path : Way) (t : Tree) → Bal (plug path t) → Bal t × BalPath (height t) path
BalPath-unplug [] t bal = (bal, tt)
BalPath-unplug (down_left c a r ∷ path) t bal =
    let ((e, bal_t, bal_r), h) = BalPath-unplug path (fork c t a r) bal in (bal_t, (e, bal_r, h))
BalPath-unplug (down_right c l a ∷ path) t bal =
    let ((e, bal_l, bal_t), h) = BalPath-unplug path (fork c l a t) bal in
    (bal_t, (e, bal_l, subst (λ n. BalPath (n + black c) path) e h))

pub CalmPath-unplug :
    (path : Way) (t : Tree)
    → Calm (plug path t)
    → is_red (plug path t) ≡ false
    → Calm t × CalmPath (is_red t) path
CalmPath-unplug [] t calm e = (calm, e)
CalmPath-unplug (down_left c a r ∷ path) t calm e =
    let ((quiet, calm_t, calm_r), h) = CalmPath-unplug path (fork c t a r) calm e in
    (calm_t, (quiet, calm_r, h))
CalmPath-unplug (down_right c l a ∷ path) t calm e =
    let ((quiet, calm_l, calm_t), h) = CalmPath-unplug path (fork c l a t) calm e in
    (calm_t, (quiet, calm_l, h))

-- The root is made black.
abbrev pub blacken : Tree → Tree
blacken tip = tip
blacken (fork c l a r) = fork false l a r

pub Bal-blacken : (t : Tree) → Bal t → Bal (blacken t)
Bal-blacken tip h = tt
Bal-blacken (fork c l a r) h = h

pub Calm-blacken : (t : Tree) → Calm t → Calm (blacken t)
Calm-blacken tip h = tt
Calm-blacken (fork c l a r) (quiet, calm_l, calm_r) = ((refl, refl), calm_l, calm_r)

pub is_red-blacken : (t : Tree) → is_red (blacken t) ≡ false
is_red-blacken tip = refl
is_red-blacken (fork c l a r) = refl

-- A hole above which nothing is red can take a tree of either color.
pub Quiet-either : (c d : Bool) → Quiet c true → Quiet c d
Quiet-either true d h = ground arith
Quiet-either false d h = refl
