-- ===== src/Tests/Parts.antt =====
-- The ring, the command cache and the tree on concrete data.
use optilog_artifacts.Prelude.{
  ℕ, ◌≤◌, ◌≡◌, ◌↔◌, refl, true, false, some, List, [], ◌∷◌, length, All, arith, In,
}
use optilog_artifacts.Prelude.Dict.{lookup}
use optilog_artifacts.EventLoop.Queue.{Queue, push, pop}
use optilog_artifacts.EventLoop.Queue.Contents.{IsValid, contents}
use optilog_artifacts.EventLoop.Queue.Refinement.{Pushed, popped, push-contents, pop-contents}
use optilog_artifacts.CmdCache.{Command, Codec, CmdCache, accept, proposed, take_batch, is_old}
use optilog_artifacts.CmdCache.Serial.{accept-proposed, take_batch-new}
use optilog_artifacts.Kauri.Tree.{FaultFreeTree, read, get_parent, get_children_of_node}
use optilog_artifacts.Kauri.Tree.Shape.{IsPlaced, get_children_of_node-get_parent}

-- A full ring of two events.
abbrev ring : Queue ℕ
ring = record { entries = some 7 ∷ some 8 ∷ []; head = some 1; tail = some 0 }

push-contents_example : Pushed 2 (contents ring) 9 (push 9 ring)
push-contents_example = push-contents 9 ring (omega arith, omega arith)

pop-contents_example : IsValid (pop ring).1 × (contents ring ≡ popped (pop ring))
pop-contents_example = pop-contents ring (omega arith, omega arith)

abbrev command : ℕ → ℕ → Command
command client n = record { client_id = client; sequence_number = n; data_bytes = [] }

abbrev batch : List Command
batch = command 1 3 ∷ command 2 1 ∷ []

abbrev codec : Codec
codec = record { marshal = λ cmds. some []; unmarshal = λ bytes. some batch }

abbrev cmd_cache : CmdCache
cmd_cache = record { batch_size = 1; serial_numbers = (1, 2) ∷ []; cache = batch }

accept-proposed_example : accept codec (proposed codec (4 ∷ []) cmd_cache) (4 ∷ []) ≡ false
accept-proposed_example = accept-proposed codec cmd_cache (4 ∷ []) batch refl

take_batch-new_example :
    All (λ c. is_old ((1, 3) ∷ []) c ≡ false) (take_batch ((1, 3) ∷ []) 1 batch).0
    × (length (take_batch ((1, 3) ∷ []) 1 batch).0 ≤ 1)
take_batch-new_example = take_batch-new ((1, 3) ∷ []) 1 batch

abbrev tree : FaultFreeTree
tree = record {
  id = 7;
  configuration_length = 3;
  height = 2;
  id_to_pos_mapping = (7, 0) ∷ (8, 1) ∷ (9, 2) ∷ [];
  pos_to_id_mapping = (0, 7) ∷ (1, 8) ∷ (2, 9) ∷ [];
}

tree-IsPlaced : IsPlaced tree
unfolding lookup
tree-IsPlaced = record { pos_below = λ i. ground arith; pos_of_id = λ p b. ground arith }

place :
    (read tree.pos_to_id_mapping (read tree.id_to_pos_mapping 7) ≡ 7)
    × (read tree.pos_to_id_mapping (read tree.id_to_pos_mapping 9) ≡ 9)
unfolding lookup
place = (refl, refl)

get_children_of_node-get_parent_example :
    In 9 (get_children_of_node tree 7) ↔ (get_parent (record tree { id = 9 }) ≡ (7, true))
get_children_of_node-get_parent_example =
    get_children_of_node-get_parent tree tree-IsPlaced 7 9 place.0 place.1
