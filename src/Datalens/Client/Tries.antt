-- ===== src/Datalens/Client/Tries.antt =====
-- The loop over the attempts (`post_query` of src/datalens/client.rs) on the state of the world, and
-- the same loop on the list of what the attempts give.
use ormpindexer.Base.{ℕ, zero, suc, List, [], ◌∷◌}
use ormpindexer.Base.Action.{Action}
use ormpindexer.Datalens.Attempts.{Attempt}
use ormpindexer.Datalens.Wire.{Json, QueryBody}
use ormpindexer.Datalens.Client.{Request, Response, query_pages}

module _ {W : Type 0} (json : Json) (send : Request → W → Response × W) where
  -- What so many attempts give, one after the other.
  unfoldable pub asked : ℕ → ℕ → QueryBody → W → List Attempt
  asked rounds zero request w = []
  asked rounds (suc attempts) request w =
      let (attempt, w') = query_pages json send rounds request [] [] w in
      attempt ∷ asked rounds attempts request w'
