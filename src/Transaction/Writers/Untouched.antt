-- ===== src/Transaction/Writers/Untouched.antt =====
-- The tables that no commit is about, along the commits of the branch one after another.
use icechest.Base.{
  String, ◌≡◌, refl, false, Bool, Option, List, [], ◌∷◌, ◌++◌, arith, map, ◌||◌, contains_text,
}
use icechest.Base.Dict
use icechest.Base.Dict.{Dict, get-nil}
use icechest.Base.Exec.{ok}
use icechest.Catalog.{current_pointers}
use icechest.Catalog.Resolution.{get-current_pointers}
use icechest.Intent.{TableIntent}
use icechest.Platform.{Platform}
use icechest.Platform.Laws.{KeepsPlace, IsHistory, IsUndisturbed, IsClosed}
use icechest.Pointer.{read_pointers}
use icechest.Transaction.Commit.{apply_all}
use icechest.Transaction.Frame.{staged_name, apply_all-KeepsOthers}
use icechest.Transaction.State.{HybridRepo, catalog_for}
use icechest.Transaction.Window.{Operation}
use icechest.Transaction.Writers.{Writers, Reach}
use icechest.Transaction.Writers.InTurn.{InTurn, at_start, and_then, Reach-IsInTurn}

module _ (P : Platform) where
  open P use {World, lookup_branch}

  -- Whether an intent is about the table.
  abbrev pub is_about : String → List (TableIntent P) → Bool
  is_about j intents = contains_text (map (staged_name P) intents) j

  is_about-append :
      (j : String) (xs ys : List (TableIntent P))
      → is_about j (xs ++ ys) ≡ (is_about j xs || is_about j ys)
  is_about-append j [] ys = refl
  is_about-append j (x ∷ xs) ys = ground (arith, is_about-append j xs ys)

  applied-others :
      (repo : HybridRepo) (pointers : Dict String) (intents : List (TableIntent P)) (j : String)
      (w : World)
      → is_about j intents ≡ false
      → Dict.get j (current_pointers (apply_all P intents (catalog_for repo pointers false, w)).1.0)
        ≡ Dict.get j pointers
  applied-others repo pointers intents j w other =
      let c = catalog_for repo pointers false in
      let c' = (apply_all P intents (c, w)).1.0 in
      let kept = apply_all-KeepsOthers P intents c w in
      unfold catalog_for in
      ground
        (arith, get-current_pointers j c', kept.others j other, kept.base, get-nil {V = String} j)

  InTurn-others :
      (parent : String → World → Option String) (repo : HybridRepo) (branch start : String)
      (base : Dict String) (j : String) {landed : List (TableIntent P)} {tip : String}
      {pointers : Dict String}
      → InTurn P parent repo branch start base landed tip pointers
      → is_about j landed ≡ false
      → Dict.get j pointers ≡ Dict.get j base
  InTurn-others parent repo branch start base j at_start other = refl
  InTurn-others parent repo branch start base j
        (and_then landed intents tip id pointers pointers' at after earlier found read applied same
          is_parent read')
        other =
      let (before, now) : (is_about j landed ≡ false) × (is_about j intents ≡ false) =
        ground (arith, is_about-append j landed intents) in
      rw (same, applied-others repo pointers intents j at now)
        (InTurn-others parent repo branch start base j earlier before)

  -- However any number of writers of one repository begin, make staging calls, write arrays and take
  -- the turns of their commits, in whichever order, and stage nothing on a catalog by hand: where
  -- nobody else writes to the branch, snapshots keep what they hold, a rebase takes a session to the
  -- tip and Zarr leaves a session on its snapshot, the tip has, for every table that no intent of a
  -- commit that went through is about, the pointer that the tip at the start had.
  pub Reach-untouched :
      {parent : String → World → Option String} (history : IsHistory P parent)
      (in_place : KeepsPlace P) (repo : HybridRepo) (branch : String)
      (calm : IsUndisturbed P branch) (closed : IsClosed P branch) (start : String)
      (base : Dict String) (allowed : Operation P → Bool) (w : World) (s : Writers P) (j : String)
      → lookup_branch branch w ≡ ok start
      → read_pointers P start w ≡ ok base
      → Reach P allowed repo branch (record { pool = []; world = w; landed = [] }) s
      → is_about j s.landed ≡ false
      → (tip : String) × (pointers : Dict String) × (lookup_branch branch s.world ≡ ok tip)
        × (read_pointers P tip s.world ≡ ok pointers)
        × (Dict.get j pointers ≡ Dict.get j base)
  Reach-untouched {parent} history in_place repo branch calm closed start base allowed w s j found
        read reached other =
      let now =
        Reach-IsInTurn P history in_place repo branch calm closed start base allowed w s found read
          reached in
      (
        now.tip,
        now.pointers,
        now.found,
        now.read,
        InTurn-others parent repo branch start base j now.in_turn other,
      )
