-- ===== src/Blob/Examples.antt =====
-- A gzip layer that becomes a prism, and its statistics.
use oci_amber.Prelude.{◌≡◌, replicate, refl, true, false, none, some, ℕ, [], ◌∷◌}
use oci_amber.Prelude.Text.{Bytes}
use oci_amber.Oci.Examples.{sha_a}
use oci_amber.Blob.Analyze.{format_gzip, Probe, started, as_prism, analyze}
use oci_amber.Blob.Tar.{probe_tar, is_tar_header, all_zero, trim_pad}
use oci_amber.Blob.Store.{Store, PutIo, prism_done, put_blob, full_dedup}
use oci_amber.Blob.Store.Put.{Stores, put_blob-Stores}
use oci_amber.Blob.Pipe.{
  Run, Reach, new_pipe, start, starts, then_step, begins_write, sends, reads, send_chunk, read_pipe,
  take_cur, fill_cur,
}
use oci_amber.Blob.Pipe.Fifo.{IsFifo, reach-IsFifo}

abbrev layer_probe : Probe
layer_probe = record {
  over = false;
  over_later = false;
  opens = true;
  format = some format_gzip;
  window = none;
  content = some (record { bytes = replicate 1024 0; fails = false });
  start = started;
}

-- An archive of two blocks of zeros, which has no header.
layer-analyzed : analyze layer_probe ≡ some (as_prism format_gzip)
unfolding analyze probe_tar is_tar_header all_zero trim_pad
layer-analyzed = refl

abbrev empty_store : Store
empty_store = record {
  published = [];
  recent = [];
  allow_raw = false;
  recent_ttl = 100;
  read_only = false;
}

abbrev layer_io : PutIo
layer_io = record {
  over = false;
  read_ok = true;
  slot = true;
  probe = layer_probe;
  prism = prism_done (record {
    diff_id = sha_a;
    uncompressed_size = 9;
    entries = 1;
    engine = [];
    engine_version = [];
    stats = full_dedup 0;
    content = ([], [], [], []);
  });
  raw = none;
  root_ok = true;
  publish_ok = true;
  now = 1;
}

put_blob-Stores_example : Stores sha_a 5 empty_store (put_blob layer_io sha_a 5 empty_store)
put_blob-Stores_example = put_blob-Stores layer_io sha_a 5 empty_store

-- Two bytes are written, and one of them is read.
abbrev pipe_run : ℕ → Bytes → Bytes → Bytes → Run
pipe_run slots cur sent got = record {
  pipe = record (new_pipe slots) { cur = cur };
  pending = none;
  sent = sent;
  got = got;
  stopped = none;
}

abbrev queued_run : Run
queued_run = record {
  pipe = record (new_pipe 1) { queue = (7 ∷ 8 ∷ []) ∷ [] };
  pending = none;
  sent = 7 ∷ 8 ∷ [];
  got = [];
  stopped = none;
}

queued_run-reached : Reach 1 queued_run
unfolding send_chunk
queued_run-reached =
    then_step (record (start 1) { pending = some (7 ∷ 8 ∷ []) }) queued_run
      (then_step (start 1) (record (start 1) { pending = some (7 ∷ 8 ∷ []) }) starts
        (begins_write (7 ∷ 8 ∷ []) refl refl refl))
      (sends false (7 ∷ 8 ∷ []) queued_run.pipe refl refl)

read_run-reached : Reach 1 (pipe_run 1 (8 ∷ []) (7 ∷ 8 ∷ []) (7 ∷ []))
unfolding read_pipe take_cur fill_cur
read_run-reached =
    then_step queued_run (pipe_run 1 (8 ∷ []) (7 ∷ 8 ∷ []) (7 ∷ [])) queued_run-reached
      (reads 1 (record (new_pipe 1) { cur = 8 ∷ [] }) (7 ∷ []) refl)

reach-IsFifo_example : IsFifo 1 (pipe_run 1 (8 ∷ []) (7 ∷ 8 ∷ []) (7 ∷ []))
reach-IsFifo_example = reach-IsFifo 1 (pipe_run 1 (8 ∷ []) (7 ∷ 8 ∷ []) (7 ∷ [])) read_run-reached
