-- ===== src/Inference/Tests.antt =====
-- The closure of two classes that are each other's superclass, with an instance of one.
use shacl_engine.Common.{◌≡◌, refl, some, Option, List, [], ◌∷◌, arith}
use shacl_engine.Error.{Result, ok}
use shacl_engine.Model.Starts.{Row}
use shacl_engine.Model.Tests.{vocab}
use shacl_engine.Model.Graph.{Graph, build, iter}
use shacl_engine.Inference.{rdfs_closure_bounded}
use shacl_engine.Inference.Closure.{Closes, rdfs_closure_bounded_lem}

abbrev schema : List Row
schema =
    (30, vocab.rdfs_sub_class_of, 31)
    ∷ (31, vocab.rdfs_sub_class_of, 30)
    ∷ (1, vocab.rdf_type, 30)
    ∷ []

abbrev classes : Graph
classes = record {
  spo = (1, 10, 30) ∷ (30, 17, 31) ∷ (31, 17, 30) ∷ [];
  pos = (10, 30, 1) ∷ (17, 30, 31) ∷ (17, 31, 30) ∷ [];
  osp = (30, 1, 10) ∷ (30, 31, 17) ∷ (31, 30, 17) ∷ [];
  spo_starts = record {
    base = 1;
    starts =
        0 ∷ 1 ∷ 1 ∷ 1 ∷ 1 ∷ 1 ∷ 1 ∷ 1 ∷ 1 ∷ 1 ∷ 1 ∷ 1 ∷ 1 ∷ 1 ∷ 1 ∷ 1 ∷ 1 ∷ 1 ∷ 1 ∷ 1 ∷ 1 ∷ 1 ∷ 1
        ∷ 1 ∷ 1 ∷ 1 ∷ 1 ∷ 1 ∷ 1 ∷ 1 ∷ 2 ∷ 3 ∷ [];
  };
  pos_starts = record { base = 10; starts = 0 ∷ 1 ∷ 1 ∷ 1 ∷ 1 ∷ 1 ∷ 1 ∷ 1 ∷ 3 ∷ [] };
  osp_starts = record { base = 30; starts = 0 ∷ 2 ∷ 3 ∷ [] };
}

classes_built : build schema ≡ some classes
unfolding build
classes_built = refl

abbrev holds_rows : Option (Result Graph) → List Row
holds_rows (some (ok g)) = g.spo
holds_rows _ = []

-- The instance has both classes, and neither class is concluded to be its own superclass.
closed_classes :
    holds_rows (rdfs_closure_bounded 30 classes vocab 20)
    ≡ (1, 10, 30) ∷ (1, 10, 31) ∷ (30, 17, 31) ∷ (31, 17, 30) ∷ []
unfolding rdfs_closure_bounded
closed_classes = refl

rdfs_closure_bounded_lem_example :
    (res : Result Graph) × (rdfs_closure_bounded 30 classes vocab 20 ≡ some res)
    × Closes vocab (iter classes) 20 res
rdfs_closure_bounded_lem_example =
    rdfs_closure_bounded_lem 30 classes vocab 20 (omega arith) (omega arith)
