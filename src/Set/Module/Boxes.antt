-- ===== src/Set/Module/Boxes.antt =====
-- The loop of `createBox` over the members of a box.
use gemstone.Prelude.{length, ◌≡◌, String, List, [], ◌∷◌, Table}
use gemstone.Ast.{Tree, children, kind, value}
use gemstone.Set.Types.{TypePtr, Expression}
use gemstone.Set.Monad.{SetState, M}
use gemstone.Set.Operands.Agree.{OnOk-bind, OnOk, OnOk-then}
use gemstone.Set.Module.{create_box_member, create_box_members, create_box}

abbrev pub Never : {A : Type 0} → A → SetState → Type 0
Never a s = ⊥

create_box_members-fails :
    (name : String) (p : TypePtr) (ts : List (Tree (M Expression))) (s : SetState)
    → OnOk Never (create_box_members name p ts s)
unfolding create_box_members
create_box_members-fails name p [] s = tt
create_box_members-fails name p (t ∷ ts) s =
    OnOk-then Never (create_box_member name p (kind t) t s) _
      (λ u s'. create_box_members-fails name p ts s')

-- No box with a member is ever accepted: whatever the tree and the state, `createBox` on a name and a
-- list with a first member does not succeed. It ends with an error or in a fault.
pub create_box-fails :
    (boxes : Table TypePtr) (name members member : Tree (M Expression))
    (rest ignored : List (Tree (M Expression))) (s : SetState)
    → children members ≡ member ∷ rest
    → OnOk Never (create_box boxes (name ∷ members ∷ ignored) s)
unfolding create_box
create_box-fails boxes name members member rest ignored s e = rw e (
    OnOk-bind Never Never _ _
      (create_box_members-fails (value name) (length s.types) (member ∷ rest) _)
      (λ u s' h. absurd h))
