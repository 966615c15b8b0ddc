-- ===== src/Uploads/Refined.antt =====
-- The archive follows the shelf.

use internal_portal_ceo_dash.Base.{String, ◌≡◌, Bool, List}
use internal_portal_ceo_dash.Base.Dict
use internal_portal_ceo_dash.Base.Dict.{Dict}
use internal_portal_ceo_dash.Uploads.Archive.{Libraries, PublicItem, Store, Outcome}
use internal_portal_ceo_dash.Uploads.Stored.{IsSound}
use internal_portal_ceo_dash.Uploads.Shelf.{Told, archiving, deleting, Shelf, seen}
use internal_portal_ceo_dash.Uploads.Shown.{IsOrdered}

module _ (lib : Libraries) (sound : IsSound lib) where
  -- the service shows what the shelf has
  Shows : Store → Shelf → Type 0
  Shows st shelf = (j : String) → seen lib st j ≡ shelf j

  -- a step keeps the order, shows what the shelf has after it, and gives the same
  Follows : List String → Store × Told → Shelf × Told → Type 0
  Follows ids (next, told) (shelf, told') =
      IsOrdered lib sound next ids × Shows next shelf × (told ≡ told')

  -- the store after an archiving, with what it gives
  archived_told : Store × Outcome PublicItem → Store × Told
  archived_told (st, told) = (st, archiving told)

  deleted_told : Store × Outcome Bool → Store × Told
  deleted_told (st, told) = (st, deleting told)
