-- ===== src/Registry/PushExamples.antt =====
-- A manifest pushed to the registry and pulled from it.
use oci_amber.Prelude.{◌+◌, ◌≡◌, refl, true, false, none, some, [], length, arith}
use oci_amber.Prelude.Text.{Bytes, cut, contains_byte}
use oci_amber.Prelude.Assoc.{Assoc, lookup, insert, without}
use oci_amber.Prelude.Sort.{sort_by}
use oci_amber.Prelude.Split.{trim_space}
use oci_amber.Regex.{matches, up_to}
use oci_amber.Oci.Digest.{
  parse_digest, is_digest, digest_shape_re, sha256_hex_re, digest_of_bytes, digest_from_sum,
  hex_encode, hex_digit,
}
use oci_amber.Oci.Names.{validate_repository, validate_tag, repository_re, tag_re}
use oci_amber.Oci.Manifest.{
  parse_manifest, is_index, effective_media_type, effective_artifact_type, strip_media_type_params,
  blob_descriptors, validate_optional, validate_descriptor, validate_all,
}
use oci_amber.Oci.Examples.{sha_a, repo_name, tag_name}
use oci_amber.Store.{Key}
use oci_amber.Store.Dir.{
  add_file, add_dir, add_entry, finish, valid_name, valid_payload, valid_typed, valid_xattrs,
  file_type,
}
use oci_amber.Store.Refs.{resolve, decode_ref, publish}
use oci_amber.Store.Refs.Laws.{target}
use oci_amber.Blob.Store.{take_recent, purge_recent}
use oci_amber.Image.Refs.{tag_ref, manifest_ref}
use oci_amber.Image.Store.{Image, got}
use oci_amber.Image.Stats.{compute_stats, add_blobs, contains_digest}
use oci_amber.Image.Rootfs.{build_rootfs, rootfs_applies}
use oci_amber.Image.Put.{
  Images, blob_ref, put_image, check_put, check_reference, check_digest, check_subject, first_pass,
  second_pass, resolve_blobs, resolve_all, build_ref_dir, add_dirs, root_dir, publish_refs,
  publish_tag, publish_referrer,
}
use oci_amber.Image.Pull.{Stream}
use oci_amber.Image.Pushes.{sample_objects, meta_a, root_a, any_manifest, pushing, before_push}
use oci_amber.Samples.{
  sample_keys, sample_get, sample_decode, sample_refs, sample_refs-RefLaws, quiet, constant_sum,
  digest-constant_sum, file_a, text_a, file_a-File,
}
use oci_amber.Image.Store.{open_image, open_root, ref_for, has_tree, read_meta}
use oci_amber.Registry.Blobs.{get_method}
use oci_amber.Registry.Routes.{to_manifests, to_route, serve_target}
use oci_amber.Registry.Manifests.{
  Push, ManifestResponse, manifest_error, found_manifest, put_manifest, handle_manifests,
  manifest_location,
}
use oci_amber.Registry.Manifests.Serve.{
  put_manifest-location, put_manifest-refused, get_manifest-whole,
}
use oci_amber.Image.Pushes.{two_images}
use oci_amber.Oci.Examples.{sha_a-valid}
use oci_amber.Oci.Errors.{manifest_invalid, default_status}

abbrev push_a : Push
push_a = record { declared = some 3; body = text_a; broken = false; content_type = [] }

abbrev stored_push : Images (Assoc Bytes) × ManifestResponse
stored_push =
    put_manifest sample_objects sample_refs sample_keys constant_sum any_manifest pushing repo_name
      tag_name push_a before_push

stored_push-status : stored_push.1.status ≡ 201
unfolding put_manifest put_image check_put check_reference check_digest check_subject first_pass
    second_pass resolve_blobs resolve_all build_ref_dir add_dirs root_dir publish_refs publish_tag
    publish_referrer publish add_file add_dir add_entry finish valid_name valid_payload valid_typed
    valid_xattrs file_type contains_byte validate_repository repository_re matches is_digest
    digest_shape_re validate_tag tag_re up_to parse_manifest is_index effective_media_type
    effective_artifact_type blob_descriptors validate_optional validate_descriptor validate_all
    parse_digest cut sha256_hex_re digest_of_bytes digest_from_sum hex_encode hex_digit resolve
    decode_ref lookup insert without sort_by blob_ref build_rootfs rootfs_applies compute_stats
    add_blobs contains_digest take_recent purge_recent strip_media_type_params trim_space
    manifest_location
stored_push-status = refl

put_manifest-location_example :
    (root : Key) × (path : Bytes) × (target sample_refs
        (manifest_ref repo_name sha_a)
        stored_push.0.state
      ≡ some root)
    × (stored_push.1.digest ≡ some sha_a)
    × (stored_push.1.location ≡ some path)
    × (serve_target path
        ≡ to_route (record { name = repo_name; kind = to_manifests; rest = sha_a }))
put_manifest-location_example =
    put_manifest-location sample_keys sample_objects sample_refs constant_sum any_manifest pushing
      repo_name tag_name push_a before_push sample_refs-RefLaws (λ es k h. refl) stored_push.0
      stored_push.1 sha_a (digest-constant_sum text_a) sha_a-valid refl stored_push-status

abbrev broken_push : Push
broken_push = record push_a { broken = true }

broken_push-answer :
    put_manifest sample_objects sample_refs sample_keys constant_sum any_manifest pushing repo_name
      tag_name broken_push before_push
    ≡ (before_push, manifest_error manifest_invalid)
unfolding put_manifest
broken_push-answer = refl

put_manifest-refused_example : before_push.state ≡ before_push.state
unfolding default_status
put_manifest-refused_example =
    put_manifest-refused sample_keys sample_objects sample_refs constant_sum any_manifest pushing
      repo_name tag_name broken_push before_push sample_refs-RefLaws (λ es k h. refl) before_push
      (manifest_error manifest_invalid) broken_push-answer (omega arith) (omega arith)

abbrev stream_a : Stream
stream_a = record {
  keys = sample_keys;
  get = sample_get;
  decode = sample_decode;
  takes = λ o q. true;
  live = λ o. true;
  sha256 = constant_sum;
}

abbrev image_a : Image
image_a = record { meta = meta_a; root = root_a; manifest = file_a; rootfs = none }

abbrev with_images : Images (Assoc Bytes)
with_images = record before_push { state = two_images }

opened-image :
    open_image sample_objects sample_refs quiet repo_name tag_name two_images ≡ got image_a
unfolding open_image open_root ref_for has_tree read_meta resolve decode_ref lookup
    validate_repository repository_re matches is_digest digest_shape_re validate_tag tag_re up_to
    tag_ref manifest_ref
opened-image = refl

get_manifest-whole_example :
    handle_manifests sample_objects sample_refs sample_keys any_manifest stream_a 6
      (length text_a + 1)
      pushing
      repo_name
      tag_name
      push_a
      with_images
      get_method
    ≡ (with_images, some (record (found_manifest meta_a) { body = text_a }))
get_manifest-whole_example =
    get_manifest-whole sample_objects sample_refs sample_keys any_manifest stream_a 6 4 pushing
      repo_name tag_name push_a with_images image_a text_a (λ o q. refl) (λ o. refl) refl
      opened-image file_a-File (omega arith) (digest-constant_sum text_a)
