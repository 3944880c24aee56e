-- ===== src/Screen/Transport/Publish.antt =====
-- What `frame_publish` of guest/shim/src/frame_transport.h puts on the network.
use vw_firmware_mac.Base.{
  ℕ, ◌*◌, ◌%◌, ◌^◌, ◌≡◌, refl, sym, ap, ◌∙◌, ◌⊎◌, inl, inr, List, [], ◌∷◌, ◌++◌, Option, none, some,
  Bool, true, false, not, append_assoc, append-nil,
}
use vw_firmware_mac.Base.{◌==◌, ◌&&◌, if◌then◌else◌, take, drop, take-append-drop, subst}
use vw_firmware_mac.Rpc.Link.{Answer, moves, interrupted, fails}
use vw_firmware_mac.Screen.Transport.{
  frame_send_all, Network, Publication, frame_words, is_frame, refused, send_frame, publish_on,
  frame_publish,
}

-- A prefix of `bytes` was sent, all of it on success.
pub record Out (bytes : List ℕ) (ok : Bool) (sent : List ℕ) : Type 0 where
  pub back : List ℕ
  pub split : sent ++ back ≡ bytes
  pub complete : (ok ≡ false) ⊎ (back ≡ [])

abbrev OutAll : List ℕ → Option (Bool × List ℕ × List Answer) → Type 0
OutAll bytes none = Unit
OutAll bytes (some (ok, sent, left)) = Out bytes ok sent

unsent : (bytes : List ℕ) → Out bytes false []
unsent bytes = record { back = bytes; split = refl; complete = inl refl }

moved-Out :
    (b : Bool) (n : ℕ) (xs : List ℕ) (more : List Answer) (r : Option (Bool × List ℕ × List Answer))
    → OutAll (drop n xs) r
    → OutAll xs (
        if b
        then some (false, [], more)
        else elim r as (λ _. Option (Bool × List ℕ × List Answer)) [
          | none ↦ none
          | some (ok, sent, left) ↦ some (ok, take n xs ++ sent, left)
        ])
moved-Out true n xs more r h = unsent xs
moved-Out false n xs more none h = tt
moved-Out false n xs more (some (ok, sent, left)) h = record {
  back = h.back;
  split =
      append_assoc (take n xs) sent h.back
      ∙ ap (λ r. take n xs ++ r) h.split
      ∙ take-append-drop n xs;
  complete = h.complete;
}

frame_send_all-Out :
    (answers : List Answer) (bytes : List ℕ) → OutAll bytes (frame_send_all answers bytes)
unfolding frame_send_all
frame_send_all-Out answers [] = record { back = []; split = refl; complete = inr refl }
frame_send_all-Out [] (x ∷ xs) = tt
frame_send_all-Out (moves n ∷ more) (x ∷ xs) =
    moved-Out (n == 0) n (x ∷ xs) more (frame_send_all more (drop n (x ∷ xs)))
      (frame_send_all-Out more (drop n (x ∷ xs)))
frame_send_all-Out (interrupted ∷ more) (x ∷ xs) = unsent (x ∷ xs)
frame_send_all-Out (fails ∷ more) (x ∷ xs) = unsent (x ∷ xs)

abbrev OutBoth : List ℕ → Option (Bool × List ℕ) → Type 0
OutBoth bytes none = Unit
OutBoth bytes (some (ok, sent)) = Out bytes ok sent

send_frame-Out :
    (answers : List Answer) (header pixels : List ℕ)
    → OutBoth (header ++ pixels) (send_frame answers header pixels)
unfolding send_frame
send_frame-Out answers header pixels =
    go (frame_send_all answers header) (frame_send_all-Out answers header)
  where
    second :
        (sent : List ℕ) (r : Option (Bool × List ℕ × List Answer))
        → sent ≡ header
        → OutAll pixels r
        → OutBoth (header ++ pixels) (elim r as (λ _. Option (Bool × List ℕ)) [
          | none ↦ none
          | some (ok', sent', left') ↦ some (ok', sent ++ sent')
        ])
    second sent none e h = tt
    second sent (some (ok', sent', left')) e h = record {
      back = h.back;
      split =
          append_assoc sent sent' h.back ∙ ap (λ r. sent ++ r) h.split ∙ ap (λ r. r ++ pixels) e;
      complete = h.complete;
    }

    go :
        (r : Option (Bool × List ℕ × List Answer))
        → OutAll header r
        → OutBoth (header ++ pixels) (elim r as (λ _. Option (Bool × List ℕ)) [
          | none ↦ none
          | some (ok, sent, left) ↦
              if ok
              then (elim (frame_send_all left pixels) [
                | none ↦ none
                | some (ok', sent', left') ↦ some (ok', sent ++ sent')
              ])
              else some (false, sent)
        ])
    go none h = tt
    go (some (false, sent, left)) h = record {
      back = h.back ++ pixels;
      split = sym (append_assoc sent h.back pixels) ∙ ap (λ r. r ++ pixels) h.split;
      complete = inl refl;
    }
    go (some (true, sent, left)) h =
        let empty : h.back ≡ [] = elim h.complete [ inl e ↦ cc | inr e ↦ e ] in
        second sent (frame_send_all left pixels)
          (sym (append-nil sent) ∙ ap (λ r. sent ++ r) (sym empty) ∙ h.split)
          (frame_send_all-Out left pixels)

-- The header and the pixels of a frame.
unfoldable pub published_bytes : Option (List ℕ) → ℕ → ℕ → ℕ → ℕ → List ℕ
published_bytes none w h stride format = []
published_bytes (some pixels) w h stride format =
    frame_words w h stride format ++ take (stride * h % 2 ^ 32) pixels

-- The socket is closed if it was opened, a prefix of the frame was sent, and all of it on success,
-- which only a frame of a size and a format that the host takes can have.
pub record IsPublication (pixels : Option (List ℕ)) (w h stride format : ℕ) (p : Publication)
    : Type 0 where
  pub closed : p.closed ≡ p.opened
  pub out : Out (published_bytes pixels w h stride format) p.ok p.sent
  pub valid : (p.ok ≡ false) ⊎ (is_frame w h stride format ≡ true)

abbrev Published : Option (List ℕ) → ℕ → ℕ → ℕ → ℕ → Option Publication → Type 0
Published pixels w h stride format none = Unit
Published pixels w h stride format (some p) = IsPublication pixels w h stride format p

refused-IsPublication :
    (pixels : Option (List ℕ)) (w h stride format : ℕ)
    → IsPublication pixels w h stride format refused
unfolding refused
refused-IsPublication pixels w h stride format = record {
  closed = refl;
  out = unsent _;
  valid = inl refl;
}

frame_publish-Published :
    (net : Network) (pixels : Option (List ℕ)) (w h stride format : ℕ)
    → Published pixels w h stride format (frame_publish net pixels w h stride format)
unfolding frame_publish publish_on published_bytes
frame_publish-Published net none w h stride format = refused-IsPublication none w h stride format
frame_publish-Published net (some pixels) w h stride format =
    at_guard net.host (is_frame w h stride format) net.socket net.connects refl
      (send_frame net.answers (frame_words w h stride format) (take (stride * h % 2 ^ 32) pixels))
      (send_frame-Out net.answers (frame_words w h stride format)
        (take (stride * h % 2 ^ 32) pixels))
  where
    at_guard :
        (host valid socket connects : Bool)
        → is_frame w h stride format ≡ valid
        → (r : Option (Bool × List ℕ))
        → OutBoth (frame_words w h stride format ++ take (stride * h % 2 ^ 32) pixels) r
        → Published (some pixels) w h stride format (
            if host && valid
            then (if not socket
                then some refused
                else (if not connects
                    then some (record { ok = false; opened = true; closed = true; sent = [] })
                    else elim r as (λ _. Option Publication) [
                      | none ↦ none
                      | some (ok, sent) ↦
                          some (record { ok = ok; opened = true; closed = true; sent = sent })
                    ]))
            else some refused)
    at_guard false valid socket connects e r k = refused-IsPublication _ _ _ _ _
    at_guard true false socket connects e r k = refused-IsPublication _ _ _ _ _
    at_guard true true false connects e r k = refused-IsPublication _ _ _ _ _
    at_guard true true true false e r k = record { closed = refl; out = unsent _; valid = inl refl }
    at_guard true true true true e none k = tt
    at_guard true true true true e (some (ok, sent)) k = record {
      closed = refl;
      out = k;
      valid = inr e;
    }

-- A `frame_publish` that returns has closed the socket that it opened and sent a prefix of the header
-- and the pixels, and if it returns 0, then all of them, for a frame of 1 by 1 to 1920 by 1080 pixels
-- of four bytes in format 8 and without gaps between its rows.
pub frame_publish-IsPublication :
    (net : Network) (pixels : Option (List ℕ)) (w h stride format : ℕ) (p : Publication)
    → frame_publish net pixels w h stride format ≡ some p
    → IsPublication pixels w h stride format p
frame_publish-IsPublication net pixels w h stride format p e =
    subst (Published pixels w h stride format) e
      (frame_publish-Published net pixels w h stride format)
