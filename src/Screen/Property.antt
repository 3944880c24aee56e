-- ===== src/Screen/Property.antt =====
-- The integer properties of an object, `vec_len`, `get_iv` and `set_iv` of
-- guest/shim/src/libscreen_stub.c. `iv` is the memory of `iv[NPROP][4]`, with `iv[p][i]` at 4 * p + i,
-- also where `i` runs past the end of a row. The overflow of an int is not modelled.
pub mod Storage
use vw_firmware_mac.Base.{
  ℤ, pos, negsuc, ℕ, zero, suc, ◌+◌, ◌*◌, List, [], ◌∷◌, Bool, true, false, Option, none, some,
}
use vw_firmware_mac.Base.{ltb, ◌==◌, ◌||◌, if◌then◌else◌, replicate}

pub data Kind : Type 0 where
  context display window pixmap buffer event group device : Kind

-- `struct obj`. A pointer is an address, 0 for a null pointer; `pv[p][i]` stands at 4 * p + i.
pub record Obj : Type 0 where
  pub kind : Kind
  pub id : ℕ
  pub iv : ℕ → ℤ
  pub iv_set : ℕ → Bool
  pub pv : ℕ → ℕ
  pub cv : ℕ → List ℕ
  pub buffers : ℕ → ℕ
  pub nbuffers : ℤ
  pub pixels : ℕ

-- The two variables that `SCREEN_STUB_SIZE` sets.
pub record Size : Type 0 where
  pub screen_w : ℤ
  pub screen_h : ℤ

unfoldable pub one_of : ℕ → List ℕ → Bool
one_of p [] = false
one_of p (q ∷ qs) = (p == q) || one_of p qs

abbrev pub pairs : List ℕ
pairs = 5 ∷ 35 ∷ 40 ∷ 41 ∷ 42 ∷ 66 ∷ 68 ∷ 69 ∷ 72 ∷ 74 ∷ 75 ∷ 91 ∷ 92 ∷ []

unfoldable pub vec_len : ℕ → ℕ
vec_len p = if one_of p pairs then 2 else (if p == 33 then 3 else (if p == 127 then 9 else 1))

unfoldable pub quadruple : ℤ → ℤ
quadruple (pos n) = pos (n * 4)
quadruple (negsuc n) = negsuc (n * 4 + 3)

-- `o->nbuffers ? o->nbuffers : 2`
unfoldable pub buffer_count : ℤ → ℤ
buffer_count (pos zero) = pos 2
buffer_count (pos (suc n)) = pos (suc n)
buffer_count (negsuc n) = negsuc n

-- `(o->type == OBJ_DISPLAY) ? 1 : o->id`
unfoldable pub object_id : Kind → ℕ → ℤ
object_id Kind.display i = pos 1
object_id _ i = pos i

abbrev pub sizes : List ℕ
sizes = 40 ∷ 42 ∷ 5 ∷ 66 ∷ 75 ∷ 92 ∷ []

abbrev pub positions : List ℕ
positions = 35 ∷ 41 ∷ 68 ∷ 74 ∷ 91 ∷ []

-- The cases that answer 1: the counts, ATTACHED, VISIBLE, PIPELINE and SWAP_INTERVAL.
abbrev pub ones : List ℕ
ones = 59 ∷ 70 ∷ 64 ∷ 51 ∷ 17 ∷ 45 ∷ 89 ∷ []

-- The cases of the `switch` in `get_iv`, for a property that was not set.
unfoldable pub unset_iv : Size → Obj → ℕ → List ℤ
unset_iv s o p =
    if one_of p sizes
    then s.screen_w ∷ s.screen_h ∷ []
    else (if one_of p positions
        then pos 0 ∷ pos 0 ∷ []
        else (if p == 87
            then object_id o.kind o.id ∷ []
            else (if one_of p ones
                then pos 1 ∷ []
                else (if one_of p (71 ∷ 14 ∷ [])
                    then pos 8 ∷ []
                    else (if p == 44
                        then quadruple s.screen_w ∷ []
                        else (if one_of p (4 ∷ 53 ∷ [])
                            then buffer_count o.nbuffers ∷ []
                            else (if one_of p (47 ∷ 88 ∷ [])
                                then pos 0 ∷ []
                                else (if p == 69
                                    then pos 154 ∷ pos 86 ∷ []
                                    else replicate (vec_len p) (pos 0)))))))))

unfoldable pub read_cells : (ℕ → ℤ) → ℕ → ℕ → List ℤ
read_cells iv at zero = []
read_cells iv at (suc n) = iv at ∷ read_cells iv (suc at) n

unfoldable pub write_cell : (ℕ → ℤ) → ℕ → ℤ → ℕ → ℤ
write_cell iv at v i = if i == at then v else iv i

-- `for (i = 0; i < n; i++) o->iv[pname][i] = param[i];`
unfoldable pub write_cells : (ℕ → ℤ) → ℕ → (ℕ → ℤ) → ℕ → ℕ → ℤ
write_cells iv at param zero = iv
write_cells iv at param (suc n) = write_cell (write_cells iv at param n) (at + n) (param n)

-- What a call of `get_iv` leaves at `param`: nothing for a null object, a zero for a property it does
-- not have. Both return -1.
pub data Got : Type 0 where
  einval enotsup : Got
  values : List ℤ → Got

unfoldable pub get_iv : Size → Option Obj → ℤ → Got
get_iv s none p = einval
get_iv s (some o) (negsuc p) = enotsup
get_iv s (some o) (pos p) =
    if ltb p 200
    then (if o.iv_set p
        then values (read_cells o.iv (4 * p) (vec_len p))
        else values (unset_iv s o p))
    else enotsup

unfoldable pub mark : (ℕ → Bool) → ℕ → ℕ → Bool
mark iv_set p q = if q == p then true else iv_set q

-- `none` where it returns -1.
unfoldable pub set_iv : Option Obj → ℤ → (ℕ → ℤ) → Option Obj
set_iv none p param = none
set_iv (some o) (negsuc p) param = none
set_iv (some o) (pos p) param =
    if ltb p 200
    then some
        (record o { iv = write_cells o.iv (4 * p) param (vec_len p); iv_set = mark o.iv_set p })
    else none
