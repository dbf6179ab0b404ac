-- ===== src/Plan/Laws.antt =====
-- Putting a copy twice is putting it once.
use cicd_tools.Prelude.{String, ◌≡◌, refl, Option, none, some, arith}
use cicd_tools.Types.{ObjectMeta}
use cicd_tools.Plan.{put, put_named, IsCopier}

module _ {R : Type 0} {meta : R → ObjectMeta} {copy : R → String → R} {overwrite : R → R → R}
    (C : IsCopier meta copy overwrite) where
  pub put_idem :
      (x : R) (ns : String) (there : Option R)
      → put meta copy overwrite x ns (put meta copy overwrite x ns there)
        ≡ put meta copy overwrite x ns there
  unfolding put
  put_idem x ns none = ground (arith, C.copy_marked x ns, C.over_copy x ns)
  put_idem x ns (some y) = ground (arith, C.over_marked x y ns, C.over_over x y ns)

  pub put_named_idem :
      (x : Option R) (ns : String) (there : Option R)
      → put_named meta copy overwrite x ns (put_named meta copy overwrite x ns there)
        ≡ put_named meta copy overwrite x ns there
  unfolding put_named
  put_named_idem none ns there = refl
  put_named_idem (some x) ns there = put_idem x ns there
