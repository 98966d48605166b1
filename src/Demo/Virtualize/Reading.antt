-- ===== src/Demo/Virtualize/Reading.antt =====
-- The two reads of a COG in demo/virtualize.py: the front of the file, and all its levels.
use icechest.Base.{ℕ, String, Option, none, List}
use icechest.Base.Exec.{Result, ◌>>=ᵣ◌}
use icechest.Demo.Tiff.{header_bytes}

-- What obstore, virtual_tiff and VirtualiZarr are called for.
record Cogs : Type 1 where
  Store : Type 0
  Tree : Type 0
  -- `registry.resolve(url)`: a store, and the path in it
  resolve : String → Result String (Store × String)
  -- `obstore.get_range(store, path, start=..., end=...)`
  get_range : Store → String → ℕ → ℕ → Result String (List ℕ)
  -- `open_virtual_datatree(url=..., registry=..., parser=VirtualTIFF(ifd=..., ifd_layout=...))`
  open_virtual_datatree : String → Option ℕ → String → Result String Tree

module _ (C : Cogs) where
  open C use {Tree, resolve, get_range, open_virtual_datatree}

  -- `read_header`
  abbrev read_header : String → Result String (List ℕ)
  read_header url = resolve url >>=ᵣ λ (store, path). get_range store path 0 header_bytes

  -- `_open_pyramid`
  abbrev open_pyramid : String → Result String Tree
  open_pyramid url = open_virtual_datatree url none "nested"
