-- ===== src/Vec/Tests/Trees.antt =====
-- Runs of the tree, and each theorem at an input.
use clibutl.Prelude.{inr, ◌≡◌, refl, false, List, [], ◌∷◌, none, some, replicate, arith}
use clibutl.Prelude.Fault.{◌>>=◌, Ends}
use clibutl.Vec.Slots.{Allocator}
use clibutl.Vec.Defs.{vec_get, vec_set, vec_alloc, fill, makeroom, grow, regrow}
use clibutl.Vec.Growth.{IsValid}
use clibutl.Vec.Arb.{
  ArbNode, Arb, change, arb_cnt, arb_ends, arb_isleaf, vecadd, take_node, arb_newnode, link_child,
  arb_addnode, arb_addsibling, arb_detach,
}
use clibutl.Vec.Arb.Nodes.{no_node}
use clibutl.Vec.Arb.Add.{AddedNode, arb_addnode-AddedNode}
use clibutl.Vec.Arb.Sibling.{AddedSibling, arb_addsibling_lem}
use clibutl.Vec.Arb.Walk.{elem}
use clibutl.Vec.Arb.Detach.{Detached, arb_detach_lem}
use clibutl.Vec.Tests.{filled_with}

abbrev nodes : Allocator ArbNode
nodes = filled_with no_node

-- A root with the children 2 and 3, of which 2 is the current node.
abbrev family : Arb
family = record {
  fst = 1;
  lst = 0;
  cur = 2;
  max = 16;
  cnt = 3;
  esz = 16;
  sorted = false;
  cmp = none;
  hsh = none;
  vec =
      record { upn = 0; dwn = 2; nxt = 0; dat = 10 }
      ∷ record { upn = 1; dwn = 0; nxt = 3; dat = 20 }
      ∷ record { upn = 1; dwn = 0; nxt = 0; dat = 30 }
      ∷ replicate 13 no_node;
  elm = no_node;
}

family-IsValid : IsValid family
family-IsValid = record {
  slots = refl;
  count = omega arith;
  positive = omega arith;
  sized = omega arith;
  fits = omega arith;
}

arb_addnode-AddedNode_example : Ends (arb_addnode nodes family) (AddedNode family)
arb_addnode-AddedNode_example =
    arb_addnode-AddedNode nodes family family-IsValid (omega arith) refl
      (inr ((λ (e : 1 ≡ 0). absurd (omega arith)), (omega arith, omega arith)))

arb_addsibling_lem_example : Ends (arb_addsibling nodes family) (λ r. AddedSibling family r.0 r.1)
arb_addsibling_lem_example =
    arb_addsibling_lem nodes family family-IsValid (omega arith) (omega arith, omega arith)
      (λ (e : 1 ≡ 0). absurd (omega arith)) (λ (e : 2 ≡ 1). absurd (omega arith)) refl

-- Node 3 behind node 4, both free: the new child of node 2 is node 3, and has node 4 as its child.
abbrev pruned : Arb
pruned = record family {
  lst = 3;
  cnt = 4;
  vec =
      record { upn = 0; dwn = 2; nxt = 0; dat = 10 }
      ∷ record { upn = 1; dwn = 0; nxt = 0; dat = 20 }
      ∷ record { upn = 0x8000_0000; dwn = 4; nxt = 4; dat = 2 }
      ∷ record { upn = 0x8000_0000; dwn = 0; nxt = 0; dat = 1 }
      ∷ replicate 12 no_node;
}

two_left : arb_cnt pruned ≡ some 2
unfolding arb_cnt
two_left = refl

stale_child : (arb_addnode nodes pruned >>= λ r. arb_isleaf r.1) ≡ some false
unfolding arb_addnode arb_newnode take_node vec_get link_child change arb_isleaf arb_ends
stale_child = refl

never : {P : Type 0} (xs : List ArbNode) → none ≡ some xs → P
never xs e = absurd (let no_block : none ≡ some xs = e in cc)

-- A full buffer, and no memory: the last node is taken for the new one.
abbrev refusing : Allocator ArbNode
refusing = record {
  malloc = λ bytes esz. none;
  realloc = λ xs bytes esz. none;
  length-malloc = λ bytes esz xs e. never xs e;
  length-realloc = λ xs bytes esz ys e. never ys e;
  take-realloc = λ xs bytes esz ys n e h g. never ys e;
}

abbrev crowded : Arb
crowded = record family {
  max = 3;
  vec =
      record { upn = 0; dwn = 2; nxt = 0; dat = 10 }
      ∷ record { upn = 1; dwn = 0; nxt = 3; dat = 20 }
      ∷ record { upn = 1; dwn = 0; nxt = 0; dat = 30 }
      ∷ [];
}

last_moved :
    arb_addnode refusing crowded
    ≡ some (
      3,
      record crowded {
        cur = 3;
        vec =
            record { upn = 0; dwn = 2; nxt = 0; dat = 10 }
            ∷ record { upn = 1; dwn = 3; nxt = 3; dat = 20 }
            ∷ record { upn = 2; dwn = 0; nxt = 0; dat = 30 }
            ∷ [];
        elm = record { upn = 1; dwn = 0; nxt = 0; dat = 30 };
      },
    )
unfolding arb_addnode arb_newnode take_node vecadd vec_set vec_alloc fill makeroom grow regrow
    vec_get link_child change
last_moved = refl

-- Node 3 is taken out behind its sibling 2.
abbrev last_child : Arb
last_child = record family { cur = 3 }

last_child-IsValid : IsValid last_child
last_child-IsValid = record {
  slots = refl;
  count = omega arith;
  positive = omega arith;
  sized = omega arith;
  fits = omega arith;
}

arb_detach_lem_example : Ends (arb_detach last_child) (Detached last_child (2 ∷ []))
unfolding elem
arb_detach_lem_example =
    arb_detach_lem last_child last_child-IsValid (omega arith, omega arith)
      (omega arith, omega arith) (2 ∷ []) [] (λ (e : 1 ≡ 0). absurd (omega arith))
      (λ (e : 3 ≡ 1). absurd (omega arith))
      (refl, (omega arith, omega arith), (refl, (omega arith, omega arith), refl))
      (refl, (refl, refl)) (omega arith)
