-- ===== src/Catalog/Resolution.antt =====
-- Which file a name resolves to: staged locations before those of the base snapshot.
use icechest.Base.{String, ◌≡◌, some, arith, ◌==◌, if◌then◌else◌, or_else}
use icechest.Base.Dict
use icechest.Base.Dict.{Dict, get-update, get-insert, get-nil}
use icechest.Catalog.{IcechunkCatalog, current_pointers, stage, rebase_onto}

-- A staged location hides the base snapshot's; the other names keep theirs.
pub get-current_pointers :
    (name : String) (c : IcechunkCatalog)
    → Dict.get name (current_pointers c)
      ≡ or_else (Dict.get name c.staged) (Dict.get name c.pointers)
unfolding current_pointers
get-current_pointers name c = get-update name c.pointers c.staged

pub get-current_pointers-stage :
    (j name location : String) (c : IcechunkCatalog)
    → Dict.get j (current_pointers (stage name location c))
      ≡ (if name == j then some location else Dict.get j (current_pointers c))
unfolding stage
get-current_pointers-stage j name location c = ground (
  arith,
  get-current_pointers j c,
  get-current_pointers j (stage name location c),
  get-insert j name location c.staged,
)

pub get-current_pointers-rebase_onto :
    (j : String) (pointers : Dict String) (c : IcechunkCatalog)
    → Dict.get j (current_pointers (rebase_onto pointers c)) ≡ Dict.get j pointers
unfolding rebase_onto
get-current_pointers-rebase_onto j pointers c =
    ground (arith, get-current_pointers j (rebase_onto pointers c), get-nil {V = String} j)
