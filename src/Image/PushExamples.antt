-- ===== src/Image/PushExamples.antt =====
-- Runs of a push of a manifest, of a tag list and of a pull.
use oci_amber.Prelude.{◌≡◌, ◌⊎◌, ◌↔◌, refl, true, none, some, [], ◌∷◌, ◌||◌, arith, if◌then◌else◌}
use oci_amber.Prelude.Text.{Bytes, bytes_eq, has_prefix, cut, cut_prefix, contains_byte}
use oci_amber.Prelude.Assoc.{Assoc, lookup, insert, without}
use oci_amber.Prelude.Sort.{Has, sort_by, IsOrderedBy}
use oci_amber.Prelude.Split.{trim_space}
use oci_amber.Regex.{matches, up_to}
use oci_amber.Oci.Errors.{ok}
use oci_amber.Oci.Digest.{
  parse_digest, is_digest, digest_shape_re, sha256_hex_re, digest_of_bytes, digest_from_sum,
  hex_encode, hex_digit,
}
use oci_amber.Oci.Names.{validate_repository, validate_tag, repository_re, tag_re}
use oci_amber.Oci.Manifest.{
  Descriptor, Manifest, parse_manifest, is_index, effective_media_type, effective_artifact_type,
  strip_media_type_params, blob_descriptors, validate_optional, validate_descriptor, validate_all,
}
use oci_amber.Oci.Examples.{repo_name, tag_name}
use oci_amber.Store.{Key}
use oci_amber.Store.Dir.{
  add_file, add_dir, add_entry, finish, valid_name, valid_payload, valid_typed, valid_xattrs,
  file_type,
}
use oci_amber.Store.Refs.{resolve, decode_ref, list_refs, list_records, publish}
use oci_amber.Store.Refs.Laws.{target}
use oci_amber.Blob.Pull.{sent}
use oci_amber.Blob.Store.{take_recent, purge_recent}
use oci_amber.Image.Refs.{tag_ref, manifest_ref, parse_tag_ref}
use oci_amber.Image.Store.{Image, internal, got, lost}
use oci_amber.Image.List.{list_tags, in_repository, keep}
use oci_amber.Image.List.Tags.{Valid, list_tags_iff}
use oci_amber.Image.Stats.{compute_stats, add_blobs, contains_digest}
use oci_amber.Image.Rootfs.{build_rootfs, rootfs_applies}
use oci_amber.Image.Put.{
  Images, blob_ref, put_image, check_put, check_reference, check_digest, check_subject, first_pass,
  second_pass, resolve_blobs, resolve_all, build_ref_dir, add_dirs, root_dir, publish_refs,
  publish_tag, publish_referrer,
}
use oci_amber.Image.Put.Steps.{is_tag, is_referrer, tag_of}
use oci_amber.Image.Put.Published.{IsNewRoot, put_image-published, put_image-failed}
use oci_amber.Image.Put.Resolved.{put_image-blobs}
use oci_amber.Image.Pull.{Stream}
use oci_amber.Image.Pull.Verified.{write_image_verified, write_image-whole}
use oci_amber.Image.Pushes.{
  sample_objects, one_image, other_tag, meta_a, root_a, any_manifest, pushing, refusing_tag,
  before_push, pushed_meta,
}
use oci_amber.Samples.{
  sample_keys, sample_get, sample_decode, sample_refs, sample_refs-RefLaws, listed, quiet,
  constant_sum, digest-constant_sum, file_a, text_a, file_a-File,
}

-- The store after the push of a manifest by tag.
abbrev after_push : Images (Assoc Bytes)
after_push =
    (put_image sample_keys sample_objects sample_refs constant_sum any_manifest pushing repo_name
      tag_name [] text_a before_push).0

pushed-manifest :
    put_image sample_keys sample_objects sample_refs constant_sum any_manifest pushing repo_name
      tag_name [] text_a before_push
    ≡ (after_push, got pushed_meta)
unfolding put_image check_put check_reference check_digest check_subject first_pass second_pass
    resolve_blobs resolve_all build_ref_dir add_dirs root_dir publish_refs publish_tag
    publish_referrer publish add_file add_dir add_entry finish valid_name valid_payload valid_typed
    valid_xattrs file_type contains_byte validate_repository repository_re matches is_digest
    digest_shape_re validate_tag tag_re up_to parse_manifest is_index effective_media_type
    effective_artifact_type blob_descriptors validate_optional validate_descriptor validate_all
    parse_digest cut sha256_hex_re digest_of_bytes digest_from_sum hex_encode hex_digit resolve
    decode_ref lookup insert without sort_by blob_ref build_rootfs rootfs_applies compute_stats
    add_blobs contains_digest take_recent purge_recent strip_media_type_params trim_space
pushed-manifest = refl

put_image-published_example :
    (root : Key) × (pushed_meta.digest ≡ digest_of_bytes constant_sum text_a)
    × ((n : Bytes)
        → target sample_refs n after_push.state ≡ (
            if bytes_eq (manifest_ref repo_name pushed_meta.digest) n
              || is_tag repo_name (tag_of tag_name) n
              || is_referrer repo_name pushed_meta.subject pushed_meta.digest n
            then some root
            else target sample_refs n before_push.state))
put_image-published_example =
    put_image-published sample_keys sample_objects sample_refs constant_sum any_manifest pushing
      repo_name tag_name [] text_a before_push sample_refs-RefLaws (λ es k h. refl) after_push
      pushed_meta pushed-manifest

put_image-blobs_example :
    (m : Manifest) × (parse_manifest any_manifest text_a ≡ ok m)
    × ((d : Descriptor)
        → Has d (blob_descriptors m)
        → (k : Key) × (target sample_refs (blob_ref d.digest) before_push.state ≡ some k))
put_image-blobs_example =
    put_image-blobs sample_keys sample_objects sample_refs constant_sum any_manifest pushing
      repo_name tag_name [] text_a before_push after_push pushed_meta pushed-manifest

-- The store after a push whose tag is refused.
abbrev after_refusal : Images (Assoc Bytes)
after_refusal =
    (put_image sample_keys sample_objects sample_refs constant_sum any_manifest refusing_tag
      repo_name tag_name [] text_a before_push).0

refused-tag :
    put_image sample_keys sample_objects sample_refs constant_sum any_manifest refusing_tag
      repo_name tag_name [] text_a before_push
    ≡ (after_refusal, lost internal)
unfolding put_image check_put check_reference check_digest check_subject first_pass second_pass
    resolve_blobs resolve_all build_ref_dir add_dirs root_dir publish_refs publish_tag
    publish_referrer publish add_file add_dir add_entry finish valid_name valid_payload valid_typed
    valid_xattrs file_type contains_byte validate_repository repository_re matches is_digest
    digest_shape_re validate_tag tag_re up_to parse_manifest is_index effective_media_type
    effective_artifact_type blob_descriptors validate_optional validate_descriptor validate_all
    parse_digest cut sha256_hex_re digest_of_bytes digest_from_sum hex_encode hex_digit resolve
    decode_ref lookup insert without sort_by blob_ref tag_ref build_rootfs rootfs_applies
    compute_stats add_blobs contains_digest take_recent purge_recent strip_media_type_params
    trim_space manifest_ref
refused-tag = refl

put_image-failed_example :
    (after_refusal.state ≡ before_push.state)
    ⊎ ((root : Key) × (internal ≡ internal)
        × IsNewRoot sample_keys sample_objects sample_refs constant_sum any_manifest refusing_tag
            repo_name tag_name [] text_a before_push root
        × (target sample_refs
              (manifest_ref repo_name (digest_of_bytes constant_sum text_a))
              after_refusal.state
            ≡ some root))
put_image-failed_example =
    put_image-failed sample_keys sample_objects sample_refs constant_sum any_manifest refusing_tag
      repo_name tag_name [] text_a before_push sample_refs-RefLaws (λ es k h. refl) after_refusal
      internal refused-tag

listed-tags : list_tags sample_refs quiet repo_name one_image ≡ got (other_tag ∷ [])
unfolding list_tags list_refs list_records listed without lookup decode_ref tag_ref has_prefix
    in_repository parse_tag_ref cut_prefix sort_by validate_repository repository_re matches
    validate_tag tag_re up_to keep cut
listed-tags = refl

list_tags_iff_example :
    (Has other_tag (other_tag ∷ [])
      ↔ Valid sample_refs sample_refs-RefLaws repo_name other_tag one_image)
    × IsOrderedBy (λ x. x) (other_tag ∷ [])
list_tags_iff_example =
    list_tags_iff sample_refs sample_refs-RefLaws quiet repo_name other_tag one_image
      (other_tag ∷ []) listed-tags

abbrev stream_a : Stream
stream_a = record {
  keys = sample_keys;
  get = sample_get;
  decode = sample_decode;
  takes = λ o q. true;
  live = λ o. true;
  sha256 = constant_sum;
}

abbrev image_a : Image
image_a = record { meta = meta_a; root = root_a; manifest = file_a; rootfs = none }

write_image_verified_example : digest_of_bytes constant_sum text_a ≡ meta_a.digest
write_image_verified_example =
    write_image_verified stream_a 6 4 image_a (sent text_a)
      (write_image-whole stream_a 6 4 image_a text_a (λ o q. refl) (λ o. refl) file_a-File
        (omega arith) (digest-constant_sum text_a))
      refl
