-- ===== src/Watch/Touching.antt =====
-- The loop that touches ConfigSyncs, and predicates on the world that its calls keep.
use cicd_tools.Prelude.{Bool, true, String, List, [], ◌∷◌, inl, inr, Bool-cases}
use cicd_tools.Prelude.Keeps.{Keeps, Keeps-bind}
use cicd_tools.Types.{ConfigSync}
use cicd_tools.Cluster.{Client}
use cicd_tools.Watch.{touch, trigger_each}

module _ (c : Client) (P : c.World → Type 0) (now : (w : c.World) → P w → P (c.now w).1)
    (update : (x : ConfigSync) → Keeps P (c.config_syncs.update x)) (prefix : String)
    (watches : ConfigSync → Bool) where
  touch-Keeps : (cs : ConfigSync) → Keeps P (touch c prefix watches cs)
  unfolding touch
  touch-Keeps cs w h = update _ (c.now w).1 (now w h)

  pub trigger_each-Keeps :
      (items : List ConfigSync) (triggered : Bool)
      → Keeps P (trigger_each c prefix watches items triggered)
  unfolding trigger_each
  trigger_each-Keeps [] triggered w h = h
  trigger_each-Keeps (cs ∷ items) triggered w h = elim (Bool-cases (watches cs)) [
    | inl hit ↦ rw hit (
        Keeps-bind (touch c prefix watches cs) _ (touch-Keeps cs)
          (λ _ _ _. trigger_each-Keeps items true) w h)
    | inr miss ↦ rw miss (trigger_each-Keeps items triggered w h)
  ]
