-- ===== src/App/Payload/Laws.antt =====
-- What apps/psp/src/main.c relies on in its transport, and its loop that reads a payload.
use psp_dev_link.Base.{
  ℕ, zero, suc, ◌+◌, ◌-◌, ◌^◌, ◌≤◌, ◌<◌, ◌≡◌, refl, List, Option, some, length, Bool, true, false,
  ltb, ◌==◌, ◌&&◌, if◌then◌else◌, if_intro, Bool-cases, inl, inr, overwrite, store_all-overwrite,
  length-overwrite, arith, ◌∙◌,
}
use psp_dev_link.Wire.{IsBytes}
use psp_dev_link.Wire.Laws.{IsBytes-overwrite}
use psp_dev_link.Transport.{TransportResult, Received, IsReceived}
use psp_dev_link.App.Payload.{
  Link, Fetch, fetched, chunk_of, is_ok, payload_capacity, fetch_payload,
}

-- What one receive gives on a link that keeps its promises.
pub record Serves {T : Type 0} (Valid : T → Type 0) (n : ℕ) (result : Option (Received × T))
    : Type 0 where
  pub received : Received
  pub after : T
  pub returns : result ≡ some (received, after)
  pub valid : Valid after
  pub sound : IsReceived n received

pub record Sends {T : Type 0} (Valid : T → Type 0) (result : Option (TransportResult × T))
    : Type 0 where
  pub outcome : TransportResult
  pub after : T
  pub returns : result ≡ some (outcome, after)
  pub valid : Valid after

-- The transport's promises, for the sizes that the application uses.
pub record SoundLink {T : Type 0} (link : Link T) : Type 1 where
  pub Valid : T → Type 0
  pub receives : (n : ℕ) (t : T) → n < 2 ^ 31 → Valid t → Serves Valid n (link.receive n t)
  pub sends :
      (bytes : List ℕ) (n : ℕ) (t : T)
      → n ≤ length bytes
      → n < 2 ^ 31
      → Valid t
      → Sends Valid (link.send bytes n t)
  pub delays : (n : ℕ) (t : T) → Valid t → Valid (link.delay_thread n t)
  pub shuts : (t : T) → Valid t → Valid (link.shutdown t)

-- The end of the loop, with everything that the caller relies on.
pub record FetchesPayload {T : Type 0} (Valid : T → Type 0) (size room : ℕ)
    (result : Option (Fetch T)) : Type 0 where
  pub complete : Bool
  pub got : ℕ
  pub buf : List ℕ
  pub after : T
  pub returns : result ≡ some (fetched complete got buf after)
  pub valid : Valid after
  pub at_most : got ≤ size
  pub same_room : length buf ≡ room
  pub are_bytes : IsBytes buf

pub chunk_bounded : (n : ℕ) (r : Received) → IsReceived n r → chunk_of r.out_size ≤ n
chunk_bounded n r ok = ground (arith, ok.counted, ok.bounded)

-- A round makes the payload or the idle rounds that are left fewer.
fuel_left :
    (fuel size got ticks chunk : ℕ)
    → (ltb got size && ltb ticks 100) ≡ true
    → (size - got) + (100 - ticks) < suc fuel
    → chunk ≤ size - got
    → (size - (got + chunk)) + (100 - (if chunk == 0 then ticks + 1 else ticks)) < fuel
fuel_left fuel size got ticks chunk more enough fits = ground arith

module _ {T : Type 0} (link : Link T) (sound : SoundLink link) where
  open sound use {Valid, receives, delays}

  -- With fuel for the bytes and the idle rounds that are left, the loop ends by its own test or by a
  -- failed receive, never writes outside the buffer, and never counts more than the payload.
  fetch_payload-Fetches :
      (fuel size got ticks : ℕ) (buf : List ℕ) (t : T)
      → (size - got) + (100 - ticks) < fuel
      → got ≤ size
      → size ≤ length buf
      → size < 2 ^ 31
      → IsBytes buf
      → Valid t
      → FetchesPayload Valid size (length buf) (fetch_payload link fuel size got ticks buf t)
  unfolding fetch_payload
  fetch_payload-Fetches zero size got ticks buf t enough le room small bytes ok =
      absurd (omega arith)
  fetch_payload-Fetches (suc fuel) size got ticks buf t enough le room small bytes ok =
      elim (Bool-cases (ltb got size && ltb ticks 100)) [
        | inr stop ↦ record {
          complete = true;
          got = got;
          buf = buf;
          after = t;
          returns = rw stop;
          valid = ok;
          at_most = le;
          same_room = refl;
          are_bytes = bytes;
        }
        | inl more ↦
            let r = receives (size - got) t (omega arith) ok in
            let buf' = overwrite got r.received.stored buf in
            let inside : got + length r.received.stored ≤ length buf =
              (let b : length r.received.stored ≤ size - got = r.sound.bounded in ground arith) in
            let stored = store_all-overwrite got r.received.stored buf inside in
            let bytes' = IsBytes-overwrite got r.received.stored buf r.sound.are_bytes bytes in
            let same = length-overwrite got r.received.stored buf inside in
            elim (Bool-cases (is_ok r.received.result)) [
              | inr failed ↦ record {
                complete = false;
                got = got;
                buf = buf';
                after = r.after;
                returns = rw (more, r.returns, stored, failed);
                valid = r.valid;
                at_most = le;
                same_room = same;
                are_bytes = bytes';
              }
              | inl fine ↦
                  let chunk = chunk_of r.received.out_size in
                  let chunk_fits : chunk ≤ size - got =
                    chunk_bounded (size - got) r.received r.sound in
                  let rest =
                    fetch_payload-Fetches fuel size (got + chunk)
                      (if chunk == 0 then ticks + 1 else ticks) buf'
                      (if chunk == 0 then link.delay_thread 1000 r.after else r.after)
                      (fuel_left fuel size got ticks chunk more enough chunk_fits) (omega arith)
                      (omega (arith, same)) small bytes'
                      (if_intro Valid (chunk == 0) _ _ (delays 1000 r.after r.valid) r.valid) in
                  record {
                    complete = rest.complete;
                    got = rest.got;
                    buf = rest.buf;
                    after = rest.after;
                    returns = rw (more, r.returns, stored, fine) rest.returns;
                    valid = rest.valid;
                    at_most = rest.at_most;
                    same_room = rest.same_room ∙ same;
                    are_bytes = rest.are_bytes;
                  }
            ]
      ]

  -- On a link that keeps the transport's promises and is in a valid state, the loop that reads a
  -- payload of at most 512 bytes into a buffer of bytes with at least that room ends: with fuel
  -- for the payload's size and 101 more rounds it never runs out. It never writes outside the
  -- buffer, whose length it keeps, never counts more than the payload's size, and leaves bytes in
  -- the buffer and a valid link.
  pub fetch_payload_ends :
      (size : ℕ) (buf : List ℕ) (t : T)
      → size ≤ payload_capacity
      → payload_capacity ≤ length buf
      → IsBytes buf
      → Valid t
      → FetchesPayload Valid size (length buf) (fetch_payload link (size + 101) size 0 0 buf t)
  fetch_payload_ends size buf t fits room bytes ok =
      fetch_payload-Fetches (size + 101) size 0 0 buf t (omega arith) (omega arith) (omega arith)
        (omega arith) bytes ok
