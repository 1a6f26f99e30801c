-- ===== src/Signup/Fresh.antt =====
-- The position of a new client is one that no client has.
use Prim.Native.String.{◌++◌ as ◌⧺◌}
use mainstay.Prelude.{List, ◌++◌, String, ◌∈◌}
use mainstay.Prelude.Int.{pos, ◌<ℤ◌}
use mainstay.Mongo.{ClientDetails, details_doc}
use mainstay.Mongo.Db.{Driver}
use mainstay.Mongo.Documented.{Documented}
use mainstay.Mongo.Table.{IsTable}
use mainstay.Signup.{client_position}

-- Every client of the list has a position that is smaller than the largest `int32`.
abbrev pub IsBelow : List ClientDetails → Type 0
IsBelow cs = (c : ClientDetails) → c ∈ cs → c.client_position <ℤ pos 2147483647

module _ {D : Type 0} {m : Driver D} (l : Documented m) where
  -- The collection is a table of these clients by position.
  abbrev pub IsClients : D → List ClientDetails → Type 0
  IsClients = IsTable l "ClientDetails" details_doc (λ c. c.client_position)
