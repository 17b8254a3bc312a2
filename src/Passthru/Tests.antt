-- ===== src/Passthru/Tests.antt =====
-- vbdev_passthru.c: the theorems at concrete requests and bdevs.
use flex_bso.Common.{
  ℕ, ◌≡◌, refl, true, false, some, List, [], ◌∷◌, memcpy, arith, if◌then◌else◌, ◌==◌,
}
use flex_bso.Bdev.{Rc, ok, fail, enomem, eexist, failed}
use flex_bso.Compression.{Doca, doca_success, doca_error, error_bad_state}
use flex_bso.Compression.Session.{Opening}
use flex_bso.Compression.Tests.{engine, engine-IsWorking, nothing_held, closed, zlib}
use flex_bso.Passthru.Buffers.{zeros, zeros_below}
use flex_bso.Passthru.Request.{
  PtIoType, io_read, io_write, PtIo, Engine, vbdev_passthru_submit_request,
  vbdev_passthru_resubmit_io, pt_complete_io,
}
use flex_bso.Passthru.RoundTrip.{bytes_after, bytes_sent, write_then_read}
use flex_bso.Passthru.Retry.{retry_compresses_again, failed_compression_sends_zeros}
use flex_bso.Passthru.Registry.{
  BdevNames, PtNode, BaseProperties, Registry, Layer, vbdev_passthru_destruct,
  vbdev_passthru_register, has_vbdev, attach, bdev_passthru_external_create_disk,
  bdev_passthru_external_delete_disk,
}
use flex_bso.Passthru.Reached.{
  IsReached, Reached, has_node, loaded, created, destructed_elsewhere, Reached-IsRegistry, named,
  IsDeferred, create_then_delete,
}
use flex_bso.Passthru.Trim.{IsClean}
use flex_bso.Compression.Balance.{IsWorking}

abbrev opening : Opening
opening = record {
  log_backend = doca_success;
  create = doca_success;
  open_device = doca_success;
  init_core = doca_success;
}

abbrev idle : Engine
idle = record { holds = nothing_held; session = closed }

abbrev request : PtIoType → List (List ℕ) → PtIo
request t iovs = record {
  io_type = t;
  offset_blocks = 4;
  num_blocks = 2;
  blocklen = 3;
  iovs = iovs;
  has_md = false;
  test = 0;
  sent = [];
  in_flight = 0;
  waiting = false;
  completions = [];
}

-- Six equal bytes in two buffers, whose compression takes two bytes.
abbrev sevens : PtIo
sevens = request io_write ((7 ∷ 7 ∷ []) ∷ (7 ∷ 7 ∷ 7 ∷ 7 ∷ []) ∷ [])

-- The read has one buffer, which the base bdev has filled.
abbrev filled : PtIo
filled = record (request io_read ((7 ∷ 6 ∷ 0 ∷ 0 ∷ 0 ∷ 0 ∷ []) ∷ [])) { in_flight = 1 }

clean : IsClean (7 ∷ 6 ∷ []) filled.iovs
unfolding IsClean zeros_below
clean = (refl, tt)

sevens_sent :
    bytes_sent
      (vbdev_passthru_submit_request engine zlib opening 5 99 (λ _. ok) ok true sevens idle)
    ≡ some (7 ∷ 6 ∷ 0 ∷ 0 ∷ 0 ∷ 0 ∷ [])
unfolding vbdev_passthru_submit_request
sevens_sent = refl

write_then_read_example :
    bytes_after (pt_complete_io engine zlib opening 5 99 true filled idle)
    ≡ some (7 ∷ 7 ∷ 7 ∷ 7 ∷ 7 ∷ 7 ∷ [])
write_then_read_example =
    write_then_read engine zlib opening 0 5 99 engine-IsWorking (omega arith) sevens filled idle
      idle ok true (7 ∷ 6 ∷ []) refl refl (record { whole = refl; small = omega arith })
      (record { whole = refl; small = omega arith }) (record { done = refl; result = refl })
      (record { done = refl; result = refl }) (omega arith) (λ e. ground arith) (omega arith) clean
      sevens_sent

-- The base bdev refuses the request, and the write is failed.
refused : PtIo
refused = record sevens {
  iovs = (7 ∷ 6 ∷ []) ∷ (0 ∷ 0 ∷ 0 ∷ 0 ∷ []) ∷ [];
  test = 90;
  completions = failed ∷ [];
}

-- Six equal bytes are compressed to two, with four zeros after them, and these six bytes a second time.
retry_compresses_again_example :
    (w' : PtIo) × (e' : Engine) × (vbdev_passthru_submit_request engine zlib opening 5 99
        (λ _. fail enomem)
        ok
        true
        sevens
        idle
      ≡ some (w', e'))
    × (w'.waiting ≡ true)
    × (bytes_sent (vbdev_passthru_resubmit_io engine zlib opening 5 99 (λ _. ok) ok true w' idle)
        ≡ some (memcpy (zeros 6) (7 ∷ 6 ∷ [])))
retry_compresses_again_example =
    retry_compresses_again engine zlib opening 0 5 99 engine-IsWorking (omega arith) sevens idle
      idle ok true (7 ∷ 6 ∷ []) (7 ∷ 6 ∷ []) refl (record { whole = refl; small = omega arith })
      (record { done = refl; result = refl }) (omega arith) (record { done = refl; result = refl })

abbrev broken : Doca
broken = record engine { event_result = λ _ _ _. doca_error error_bad_state }

broken-IsWorking : IsWorking broken 0
broken-IsWorking = record {
  calls = λ c. refl;
  pending = λ j h. absurd (omega arith);
  answered = refl;
  memory = (refl, refl);
}

failed_compression_sends_zeros_example :
    bytes_sent
      (vbdev_passthru_submit_request broken zlib opening 5 99 (λ _. ok) ok true sevens idle)
    ≡ some (zeros 6)
failed_compression_sends_zeros_example =
    failed_compression_sends_zeros broken zlib opening 0 5 99 sevens idle ok true error_bad_state
      broken-IsWorking (omega arith) refl (record { whole = refl; small = omega arith }) refl

abbrev properties : BaseProperties
properties = record {
  write_cache = true;
  required_alignment = 0;
  optimal_io_boundary = 0;
  blocklen = 512;
  blockcnt = 1000;
  md_interleave = false;
  md_len = 0;
  dif_type = 0;
  dif_is_head_of_md = false;
  dif_check_flags = 0;
}

-- Everything succeeds, but for the registration of bdev 9.
abbrev register_rc : ℕ → Rc
register_rc v = if v == 9 then fail eexist else ok

abbrev layer : Layer
layer = record {
  open_rc = λ _. ok;
  properties_of = λ _. properties;
  claim_rc = λ _ _. ok;
  register_rc = register_rc;
  calloc_node = λ _. true;
  strdup_node = λ _. true;
  current_thread = 1;
}

abbrev empty : Registry
empty = record {
  names = [];
  nodes = [];
  descs = 0;
  io_devices = 0;
  claims = [];
  closing = 0;
  lost = 0;
}

abbrev nine : BdevNames
nine = record { vbdev_name = 9; bdev_name = 3 }

-- The base bdev stays claimed.
still_claimed : attach layer 3 nine empty ≡ (fail eexist, record empty { claims = 3 ∷ [] })
unfolding attach
still_claimed = refl

-- One bdev created and attached to its base bdev.
abbrev one : Registry
one = (bdev_passthru_external_create_disk true layer 3 8 empty).1

one-Reached : Reached one 0 0
one-Reached = created empty 0 0 loaded true layer 3 8

-- Its destruction on another thread, whose message is under way.
abbrev eight : PtNode
eight = record { pt_bdev_name = 8; base_bdev = 3; properties = properties; thread = 1 }

abbrev gone : Registry
gone = vbdev_passthru_destruct eight 2 true one

gone_closing : (gone.nodes ≡ []) × (gone.descs ≡ 1) × (gone.closing ≡ 1)
unfolding vbdev_passthru_destruct bdev_passthru_external_create_disk
gone_closing = (refl, refl, refl)

eight_there : has_node 8 one.nodes ≡ true
unfolding bdev_passthru_external_create_disk has_node
eight_there = refl

Reached-IsRegistry_example : IsReached 1 0 gone
Reached-IsRegistry_example = Reached-IsRegistry gone 1 0 (
    destructed_elsewhere one 0 0 one-Reached eight eight_there 2 (λ e. ground arith)
      (λ e. ground arith))

new_name : has_vbdev 7 one.names ≡ false
unfolding bdev_passthru_external_create_disk has_vbdev
new_name = refl

create_then_delete_example :
    IsDeferred
      (bdev_passthru_external_create_disk true layer 3 7 one)
      (vbdev_passthru_register layer 3 (named 3 7 one))
    × (bdev_passthru_external_create_disk true layer 4 7
          (bdev_passthru_external_create_disk true layer 3 7 one).1
        ≡ (fail eexist, (bdev_passthru_external_create_disk true layer 3 7 one).1))
    × ((bdev_passthru_external_delete_disk
          (some 7)
          (bdev_passthru_external_create_disk true layer 3 7 one).1).2.names
        ≡ one.names)
create_then_delete_example =
    create_then_delete layer layer 3 4 7 true one (Reached-IsRegistry one 0 0 one-Reached).0
      new_name
