-- ===== src/Screen/Objects.antt =====
-- The objects of guest/shim/src/libscreen_stub.c on a heap: `new_obj`, `get_display`, `ensure_buffers`
-- and `get_pv`. `calloc` of an object succeeds; that of a buffer's pixels may fail.
pub mod Heap
pub mod Buffers
pub mod Reading
use vw_firmware_mac.Base.{
  ℕ, zero, suc, ◌+◌, ◌-◌, ◌*◌, ◌%◌, ◌^◌, List, [], ◌∷◌, Option, none, some, Bool, true, false, ℤ,
  pos, negsuc,
}
use vw_firmware_mac.Base.{ltb, leb, ◌==◌, ◌||◌, if◌then◌else◌, replicate}
use vw_firmware_mac.Screen.Property.{Kind, Obj, Size, set_iv, quadruple, mark, write_cell, one_of}

abbrev pub write {ℓ} : {A : Type ℓ} → (ℕ → A) → ℕ → A → ℕ → A
write f p v q = if q == p then v else f q

-- The static variables, and the memory. `cells` has the objects by address and `blocks` the pixel
-- buffers; nothing is freed, and `fresh` is the address of the next allocation.
pub record Screen : Type 0 where
  pub cells : ℕ → Option Obj
  pub blocks : ℕ → Option (List ℕ)
  pub fresh : ℕ
  pub next_id : ℕ
  pub the_display : ℕ
  pub size : Size

-- An object from `calloc`.
unfoldable pub blank : Kind → ℕ → Obj
blank kind id = record {
  kind = kind;
  id = id;
  iv = λ i. pos 0;
  iv_set = λ p. false;
  pv = λ i. 0;
  cv = λ p. [];
  buffers = λ i. 0;
  nbuffers = pos 0;
  pixels = 0;
}

-- `o->…= …` for the object at an address.
unfoldable pub put : Screen → ℕ → Obj → Screen
put s p o = record s { cells = write s.cells p (some o) }

unfoldable pub new_obj : Screen → Kind → Screen
unfolding put
new_obj s kind = record (put s s.fresh (blank kind s.next_id)) {
  fresh = s.fresh + 1;
  next_id = s.next_id + 1;
}

-- `asked` is what `sscanf` reads from `SCREEN_STUB_SIZE`, where that is set.
unfoldable pub get_display : Option Size → Screen → Screen
get_display asked s =
    if s.the_display == 0
    then record (new_obj s Kind.display) {
      the_display = s.fresh;
      size = elim asked [ none ↦ s.size | some size ↦ size ];
    }
    else s

-- A set call of the library on an object of its own, which does not fail.
unfoldable pub set_pair : Obj → ℕ → ℤ → ℤ → Obj
set_pair o p a b = elim (set_iv (some o) (pos p) (λ i. if i == 0 then a else b)) [
  | none ↦ o
  | some o' ↦ o'
]

unfoldable pub set_cell : Obj → ℕ → ℤ → Obj
set_cell o p a = record o { iv = write_cell o.iv (4 * p) a; iv_set = mark o.iv_set p }

-- An int as an unsigned number.
unfoldable pub unsigned : ℤ → ℕ
unsigned (pos n) = n % 2 ^ 32
unsigned (negsuc n) = 2 ^ 32 - 1 - n % 2 ^ 32

-- `sz` in `ensure_buffers`.
unfoldable pub buffer_w : Size → Obj → ℤ
buffer_w size w = if w.iv_set 5 then w.iv 20 else size.screen_w

unfoldable pub buffer_h : Size → Obj → ℤ
buffer_h size w = if w.iv_set 5 then w.iv 21 else size.screen_h

-- The product that is passed to `calloc`, whose second argument is 4; a `size_t` has 32 bits.
unfoldable pub pixel_count : Size → Obj → ℕ
pixel_count size w = unsigned (buffer_w size w) * unsigned (buffer_h size w) % 2 ^ 32

-- The buffer `b` of a window or pixmap `w`, from its number and its pixels.
unfoldable pub buffer_of : Size → Obj → ℕ → ℕ → Obj
buffer_of size w id pixels =
    let sw = buffer_w size w in
    let sh = buffer_h size w in
    let sized = set_pair (set_pair (blank Kind.buffer id) 5 sw sh) 40 sw sh in
    let strided = set_cell sized 44 (quadruple sw) in
    record (set_cell strided 14 (if w.iv_set 14 then w.iv 56 else pos 8)) { pixels = pixels }

-- `w->nbuffers = count`
unfoldable pub set_nbuffers : ℕ → ℤ → Screen → Option Screen
set_nbuffers p count s = elim (s.cells p) [
  | none ↦ none
  | some w ↦ some (put s p (record w { nbuffers = count }))
]

-- `if (count > 8) count = 8;`
unfoldable pub at_most_8 : ℤ → ℤ
at_most_8 (pos n) = pos (if ltb 8 n then 8 else n)
at_most_8 (negsuc n) = negsuc n

unfoldable pub has_none : ℤ → Bool
has_none (pos zero) = true
has_none _ = false

unfoldable pub is_drawable : Kind → Bool
is_drawable Kind.window = true
is_drawable Kind.pixmap = true
is_drawable _ = false

-- The first `n` entries of `buffers`, from `i`.
unfoldable pub slots : (ℕ → ℕ) → ℕ → ℕ → List ℕ
slots f i zero = []
slots f i (suc n) = f i ∷ slots f (i + 1) n

unfoldable pub all_slots : Obj → List ℕ
all_slots o = elim o.nbuffers [ pos n ↦ slots o.buffers 0 n | negsuc n ↦ [] ]

-- What a call of `get_pv` writes to `param`, or -1 with `EINVAL`.
pub data Pointers : Type 0 where
  einval : Pointers
  pointers : List ℕ → Pointers

-- The object at `p` as it is now, and what is read of it.
unfoldable pub read_at : ℕ → (Obj → List ℕ) → Screen → Option (Pointers × Screen)
read_at p f s = elim (s.cells p) [ none ↦ none | some o ↦ some (pointers (f o), s) ]

-- `alloc n` tells whether `calloc` finds room for `n` bytes.
module _ (alloc : ℕ → Bool) where
  -- One round of `ensure_buffers` for the object `w` at `p`: the buffer, its pixels, and the slot.
  unfoldable pub add_buffer : Screen → ℕ → Obj → ℕ → Screen
  unfolding put
  add_buffer s p w i =
      let bytes = pixel_count s.size w * 4 in
      let room = alloc bytes in
      let b = buffer_of s.size w s.next_id (if room then s.fresh + 1 else 0) in
      let t = put s s.fresh b in
      record (put t p (record w { buffers = write w.buffers i s.fresh })) {
        blocks = if room then write s.blocks (s.fresh + 1) (some (replicate bytes 0)) else s.blocks;
        fresh = s.fresh + 2;
        next_id = s.next_id + 1;
      }

  -- The loop, for `n` rounds from the slot `i`. `none` is a use of a pointer to no object.
  unfoldable pub fill_buffers : ℕ → ℕ → ℕ → Screen → Option Screen
  fill_buffers zero i p s = some s
  fill_buffers (suc n) i p s = elim (s.cells p) [
    | none ↦ none
    | some w ↦ fill_buffers n (i + 1) p (add_buffer s p w i)
  ]

  -- From `nbuffers` to `count`, which is at most 8. From a negative number the loop would write before
  -- the array: `none`.
  unfoldable pub ensure_from : ℤ → ℤ → ℕ → Screen → Option Screen
  ensure_from (pos n) (pos c) p s = elim (fill_buffers (c - n) n p s) [
    | none ↦ none
    | some t ↦ set_nbuffers p (pos c) t
  ]
  ensure_from (pos n) (negsuc c) p s = set_nbuffers p (negsuc c) s
  ensure_from (negsuc n) (pos c) p s = none
  ensure_from (negsuc n) (negsuc c) p s = if ltb c n then none else set_nbuffers p (negsuc c) s

  unfoldable pub ensure_buffers : ℕ → ℤ → Screen → Option Screen
  ensure_buffers p count s = elim (s.cells p) [
    | none ↦ none
    | some w ↦ ensure_from w.nbuffers (at_most_8 count) p s
  ]

  -- `if (!o->nbuffers) ensure_buffers(o, 2);`
  unfoldable pub ensure_some : ℕ → Obj → Screen → Option Screen
  ensure_some p o s = if has_none o.nbuffers then ensure_buffers p (pos 2) s else some s

  unfoldable pub get_buffers : ℕ → Obj → Screen → Option (Pointers × Screen)
  get_buffers p o s =
      if is_drawable o.kind
      then (elim (ensure_some p o s) [ none ↦ none | some t ↦ read_at p all_slots t ])
      else some (pointers [], s)

  unfoldable pub get_front : ℕ → Obj → Screen → Option (Pointers × Screen)
  get_front p o s = elim (ensure_some p o s) [
    | none ↦ none
    | some t ↦ read_at p (λ o'. o'.buffers 0 ∷ []) t
  ]

  -- The cases of the `switch`, for a property that is not negative.
  unfoldable pub get_pv_of : Option Size → ℕ → Obj → ℕ → Screen → Option (Pointers × Screen)
  get_pv_of asked p o pname s =
      if pname == 60 || pname == 11
      then some (pointers ((get_display asked s).the_display ∷ []), get_display asked s)
      else (if one_of pname (37 ∷ 168 ∷ 171 ∷ [])
          then get_buffers p o s
          else (if pname == 15
              then get_front p o s
              else (if pname == 34
                  then some (pointers (o.pixels ∷ []), s)
                  else some (pointers (o.pv (4 * (if ltb pname 200 then pname else 0)) ∷ []), s))))

  -- A negative property is read before the array: `none`.
  unfoldable pub get_pv : Option Size → ℕ → ℤ → Screen → Option (Pointers × Screen)
  get_pv asked zero pname s = some (einval, s)
  get_pv asked (suc p) (negsuc n) s = none
  get_pv asked (suc p) (pos n) s = elim (s.cells (suc p)) [
    | none ↦ none
    | some o ↦ get_pv_of asked (suc p) o n s
  ]
