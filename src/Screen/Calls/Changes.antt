-- ===== src/Screen/Calls/Changes.antt =====
-- Changes of one object of guest/shim/src/libscreen_stub.c that keep the objects well formed.
use vw_firmware_mac.Base.{ℕ, ◌≡◌, refl, sym, ◌∙◌, subst, some}
use vw_firmware_mac.Screen.Property.{Obj}
use vw_firmware_mac.Screen.Objects.{Screen, put}
use vw_firmware_mac.Screen.Objects.Heap.{IsValid, IsObject, Cells, Filled, put-IsValid}
use vw_firmware_mac.Screen.Calls.{change}

-- A change of an object that keeps its kind and its buffers.
pub record IsMild (f : Obj → Obj) : Type 0 where
  pub kind : (o : Obj) → (f o).kind ≡ o.kind
  pub nbuffers : (o : Obj) → (f o).nbuffers ≡ o.nbuffers
  pub buffers : (o : Obj) → (f o).buffers ≡ o.buffers

IsObject-mild : (c : Cells) (f : Obj → Obj) (o : Obj) → IsMild f → IsObject c o → IsObject c (f o)
IsObject-mild c f o m h = record {
  count = h.count;
  nbuffers = m.nbuffers o ∙ h.nbuffers;
  bound = h.bound;
  filled = subst (λ b. Filled c b h.count) (sym (m.buffers o)) h.filled;
}

pub put-mild :
    (s : Screen) (p : ℕ) (o : Obj) (f : Obj → Obj)
    → IsMild f
    → IsValid s
    → s.cells p ≡ some o
    → IsValid (put s p (f o))
put-mild s p o f m v e =
    put-IsValid s p o (f o) v e (m.kind o) (IsObject-mild s.cells f o m (v.objects p o e))

pub change-step :
    (s : Screen) (p : ℕ) (o : Obj) (f : Obj → Obj)
    → s.cells p ≡ some o
    → change p f s ≡ some (put s p (f o))
unfolding change
change-step s p o f e = rw (e, change) refl
