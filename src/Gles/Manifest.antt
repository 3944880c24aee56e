-- ===== src/Gles/Manifest.antt =====
-- runtime/graphics/gl_manifest.json: what the host knows of each operation, in the order of the keys
-- "1", "2", … . The names are left out.
use vw_firmware_mac.Base.{List, [], ◌∷◌, ◌++◌, Bool, true, false}

-- The parameter types as `scalar` of runtime/graphics/gl_server.py tells them apart: `float` is
-- `GLfloat` and `GLclampf`, and `integer` is any other type that is no pointer.
pub data Param : Type 0 where
  integer float boolean pointer : Param

pub record Entry : Type 0 where
  pub supported : Bool
  pub params : List Param

abbrev takes : List Param → Entry
takes params = record { supported = true; params = params }

abbrev lacks : List Param → Entry
lacks params = record { supported = false; params = params }

unfoldable pub first_entries : List Entry
first_entries =
    takes (integer ∷ [])
    ∷ takes (integer ∷ integer ∷ [])
    ∷ takes (integer ∷ integer ∷ pointer ∷ [])
    ∷ takes (integer ∷ integer ∷ [])
    ∷ takes (integer ∷ integer ∷ [])
    ∷ takes (integer ∷ integer ∷ [])
    ∷ takes (integer ∷ integer ∷ [])
    ∷ takes (float ∷ float ∷ float ∷ float ∷ [])
    ∷ takes (integer ∷ [])
    ∷ takes (integer ∷ integer ∷ [])
    ∷ takes (integer ∷ integer ∷ [])
    ∷ takes (integer ∷ integer ∷ integer ∷ integer ∷ [])
    ∷ takes (integer ∷ integer ∷ pointer ∷ integer ∷ [])
    ∷ takes (integer ∷ integer ∷ integer ∷ pointer ∷ [])
    ∷ takes (integer ∷ [])
    ∷ takes (integer ∷ [])
    ∷ takes (float ∷ float ∷ float ∷ float ∷ [])
    ∷ takes (float ∷ [])
    ∷ takes (integer ∷ [])
    ∷ takes (boolean ∷ boolean ∷ boolean ∷ boolean ∷ [])
    ∷ takes (integer ∷ [])
    ∷ takes (integer ∷ integer ∷ integer ∷ integer ∷ integer ∷ integer ∷ integer ∷ pointer ∷ [])
    ∷ takes (
        integer ∷ integer ∷ integer ∷ integer ∷ integer ∷ integer ∷ integer ∷ integer ∷ pointer
        ∷ [])
    ∷ takes (integer ∷ integer ∷ integer ∷ integer ∷ integer ∷ integer ∷ integer ∷ integer ∷ [])
    ∷ takes (integer ∷ integer ∷ integer ∷ integer ∷ integer ∷ integer ∷ integer ∷ integer ∷ [])
    ∷ takes []
    ∷ takes (integer ∷ [])
    ∷ takes (integer ∷ [])
    ∷ takes (integer ∷ pointer ∷ [])
    ∷ takes (integer ∷ pointer ∷ [])
    ∷ takes (integer ∷ [])
    ∷ takes (integer ∷ pointer ∷ [])
    ∷ takes (integer ∷ [])
    ∷ takes (integer ∷ pointer ∷ [])
    ∷ takes (integer ∷ [])
    ∷ takes (boolean ∷ [])
    ∷ takes (float ∷ float ∷ [])
    ∷ takes (integer ∷ integer ∷ [])
    ∷ takes (integer ∷ [])
    ∷ takes (integer ∷ [])
    ∷ takes (integer ∷ integer ∷ integer ∷ [])
    ∷ takes (integer ∷ integer ∷ integer ∷ pointer ∷ [])
    ∷ takes (integer ∷ [])
    ∷ takes (integer ∷ [])
    ∷ takes []
    ∷ takes []
    ∷ takes (integer ∷ integer ∷ integer ∷ integer ∷ [])
    ∷ takes (integer ∷ integer ∷ integer ∷ integer ∷ integer ∷ [])
    ∷ takes (integer ∷ [])
    ∷ takes (integer ∷ pointer ∷ [])
    ∷ takes (integer ∷ [])
    ∷ takes (integer ∷ pointer ∷ [])
    ∷ takes (integer ∷ pointer ∷ [])
    ∷ takes (integer ∷ pointer ∷ [])
    ∷ takes (integer ∷ integer ∷ integer ∷ pointer ∷ pointer ∷ pointer ∷ pointer ∷ [])
    ∷ takes (integer ∷ integer ∷ integer ∷ pointer ∷ pointer ∷ pointer ∷ pointer ∷ [])
    ∷ lacks (integer ∷ integer ∷ pointer ∷ pointer ∷ [])
    ∷ takes (integer ∷ pointer ∷ [])
    ∷ takes (integer ∷ pointer ∷ [])
    ∷ takes (integer ∷ integer ∷ pointer ∷ [])
    ∷ takes []
    ∷ takes (integer ∷ pointer ∷ [])
    ∷ takes (integer ∷ integer ∷ integer ∷ pointer ∷ [])
    ∷ takes (integer ∷ pointer ∷ [])
    ∷ takes (integer ∷ integer ∷ pointer ∷ [])
    ∷ takes (integer ∷ integer ∷ pointer ∷ pointer ∷ [])
    ∷ takes (integer ∷ integer ∷ pointer ∷ [])
    ∷ takes (integer ∷ integer ∷ pointer ∷ [])
    ∷ takes (integer ∷ integer ∷ pointer ∷ pointer ∷ [])
    ∷ takes (integer ∷ integer ∷ pointer ∷ pointer ∷ [])
    ∷ takes (integer ∷ integer ∷ pointer ∷ pointer ∷ [])
    ∷ []

unfoldable pub last_entries : List Entry
last_entries =
    takes (integer ∷ [])
    ∷ lacks (integer ∷ integer ∷ pointer ∷ [])
    ∷ lacks (integer ∷ integer ∷ pointer ∷ [])
    ∷ lacks (integer ∷ integer ∷ pointer ∷ [])
    ∷ lacks (integer ∷ integer ∷ pointer ∷ [])
    ∷ takes (integer ∷ pointer ∷ [])
    ∷ lacks (integer ∷ integer ∷ pointer ∷ [])
    ∷ lacks (integer ∷ integer ∷ pointer ∷ [])
    ∷ lacks (integer ∷ integer ∷ pointer ∷ [])
    ∷ takes (integer ∷ integer ∷ [])
    ∷ takes (integer ∷ [])
    ∷ takes (integer ∷ [])
    ∷ takes (integer ∷ [])
    ∷ takes (integer ∷ [])
    ∷ takes (integer ∷ [])
    ∷ takes (integer ∷ [])
    ∷ takes (integer ∷ [])
    ∷ takes (float ∷ [])
    ∷ takes (integer ∷ [])
    ∷ takes (integer ∷ integer ∷ [])
    ∷ takes (float ∷ float ∷ [])
    ∷ takes (integer ∷ integer ∷ integer ∷ integer ∷ integer ∷ integer ∷ pointer ∷ [])
    ∷ takes []
    ∷ takes (integer ∷ integer ∷ integer ∷ integer ∷ [])
    ∷ takes (float ∷ boolean ∷ [])
    ∷ takes (integer ∷ integer ∷ integer ∷ integer ∷ [])
    ∷ lacks (integer ∷ pointer ∷ integer ∷ pointer ∷ integer ∷ [])
    ∷ takes (integer ∷ integer ∷ pointer ∷ pointer ∷ [])
    ∷ takes (integer ∷ integer ∷ integer ∷ [])
    ∷ takes (integer ∷ integer ∷ integer ∷ integer ∷ [])
    ∷ takes (integer ∷ [])
    ∷ takes (integer ∷ integer ∷ [])
    ∷ takes (integer ∷ integer ∷ integer ∷ [])
    ∷ takes (integer ∷ integer ∷ integer ∷ integer ∷ [])
    ∷ takes (
        integer ∷ integer ∷ integer ∷ integer ∷ integer ∷ integer ∷ integer ∷ integer ∷ pointer
        ∷ [])
    ∷ takes (integer ∷ integer ∷ float ∷ [])
    ∷ lacks (integer ∷ integer ∷ pointer ∷ [])
    ∷ takes (integer ∷ integer ∷ integer ∷ [])
    ∷ lacks (integer ∷ integer ∷ pointer ∷ [])
    ∷ takes (
        integer ∷ integer ∷ integer ∷ integer ∷ integer ∷ integer ∷ integer ∷ integer ∷ pointer
        ∷ [])
    ∷ takes (integer ∷ float ∷ [])
    ∷ takes (integer ∷ integer ∷ pointer ∷ [])
    ∷ takes (integer ∷ integer ∷ [])
    ∷ takes (integer ∷ integer ∷ pointer ∷ [])
    ∷ takes (integer ∷ float ∷ float ∷ [])
    ∷ takes (integer ∷ integer ∷ pointer ∷ [])
    ∷ takes (integer ∷ integer ∷ integer ∷ [])
    ∷ takes (integer ∷ integer ∷ pointer ∷ [])
    ∷ takes (integer ∷ float ∷ float ∷ float ∷ [])
    ∷ takes (integer ∷ integer ∷ pointer ∷ [])
    ∷ takes (integer ∷ integer ∷ integer ∷ integer ∷ [])
    ∷ takes (integer ∷ integer ∷ pointer ∷ [])
    ∷ takes (integer ∷ float ∷ float ∷ float ∷ float ∷ [])
    ∷ takes (integer ∷ integer ∷ pointer ∷ [])
    ∷ takes (integer ∷ integer ∷ integer ∷ integer ∷ integer ∷ [])
    ∷ takes (integer ∷ integer ∷ pointer ∷ [])
    ∷ takes (integer ∷ integer ∷ boolean ∷ pointer ∷ [])
    ∷ takes (integer ∷ integer ∷ boolean ∷ pointer ∷ [])
    ∷ takes (integer ∷ integer ∷ boolean ∷ pointer ∷ [])
    ∷ takes (integer ∷ [])
    ∷ takes (integer ∷ [])
    ∷ takes (integer ∷ float ∷ [])
    ∷ takes (integer ∷ pointer ∷ [])
    ∷ takes (integer ∷ float ∷ float ∷ [])
    ∷ takes (integer ∷ pointer ∷ [])
    ∷ takes (integer ∷ float ∷ float ∷ float ∷ [])
    ∷ takes (integer ∷ pointer ∷ [])
    ∷ takes (integer ∷ float ∷ float ∷ float ∷ float ∷ [])
    ∷ takes (integer ∷ pointer ∷ [])
    ∷ takes (integer ∷ integer ∷ integer ∷ boolean ∷ integer ∷ pointer ∷ [])
    ∷ takes (integer ∷ integer ∷ integer ∷ integer ∷ [])
    ∷ lacks (integer ∷ integer ∷ pointer ∷ integer ∷ [])
    ∷ lacks (integer ∷ integer ∷ pointer ∷ pointer ∷ pointer ∷ [])
    ∷ []

unfoldable pub entries : List Entry
unfolding first_entries last_entries
entries = first_entries ++ last_entries
