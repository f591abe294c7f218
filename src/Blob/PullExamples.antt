-- ===== src/Blob/PullExamples.antt =====
-- A range of a raw blob of two chunks.
use oci_amber.Prelude.{◌≡◌, refl, true, some, [], arith}
use oci_amber.Prelude.Text.{codes}
use oci_amber.Oci.Examples.{sha_a}
use oci_amber.Blob.Analyze.{format_gzip, not_tar}
use oci_amber.Blob.Store.{Root, raw_content, full_dedup}
use oci_amber.Blob.Pull.{sent, supports_range, write_range}
use oci_amber.Blob.Pull.Slice.{write_range-slice}
use oci_amber.Samples.{sample_keys, sample_get, sample_decode, file_a, text_a, file_a-File}

abbrev pub raw_blob : Root
raw_blob = record {
  meta = record {
    digest = sha_a;
    size = 3;
    format = format_gzip;
    raw_reason = some not_tar;
    diff_id = [];
    uncompressed_size = 0;
    entries = 0;
    engine = [];
    engine_version = [];
    stats = full_dedup 3;
  };
  content = raw_content file_a;
}

pub raw_blob-supports_range : supports_range raw_blob ≡ true
unfolding supports_range
raw_blob-supports_range = refl

write_range-slice_example :
    write_range sample_keys sample_get sample_decode (λ o q. true) 6 1 2 raw_blob
    ≡ some (sent (codes "bc"))
write_range-slice_example =
    write_range-slice sample_keys sample_get sample_decode (λ o q. true) (λ o q. refl) 6 1 2
      raw_blob file_a text_a 4 file_a-File (omega arith) raw_blob-supports_range refl refl
      (omega arith) (omega arith)
