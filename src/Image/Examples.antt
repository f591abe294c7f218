-- ===== src/Image/Examples.antt =====
-- Runs of the image store: an image deleted and tags listed, and a manifest pushed and pulled.
use oci_amber.Prelude.{◌≡◌, refl, ap, true, none, some}
use oci_amber.Prelude.Text.{bytes_eq, has_prefix, cut}
use oci_amber.Prelude.Assoc.{lookup, without}
use oci_amber.Regex.{matches}
use oci_amber.Oci.Digest.{parse_digest, is_digest, digest_shape_re, sha256_hex_re}
use oci_amber.Oci.Names.{validate_repository, repository_re}
use oci_amber.Oci.Examples.{sha_a, sha_b, repo_name, sha_a-valid}
use oci_amber.Store.{Key}
use oci_amber.Store.Refs.{resolve, decode_ref, delete_ref, list_refs, list_records}
use oci_amber.Store.Refs.Laws.{target}
use oci_amber.Image.Refs.{tag_ref, manifest_ref, referrer_ref}
use oci_amber.Image.Meta.{ImageMeta}
use oci_amber.Image.Store.{
  read_meta, same_image, delete_image, ref_for, delete_manifest, delete_named, delete_tags,
  delete_tag, delete_referrer, delete_known,
}
use oci_amber.Image.Store.Untag.{
  IsOther, Unreferred, delete_image-tags, delete_image-gone, delete_image-kept,
}
use oci_amber.Image.Pushes.{
  sample_objects, two_images, one_image, other_tag, meta_a, root_a, root_b,
}
use oci_amber.Samples.{sample_refs, sample_refs-RefLaws, listed, quiet}

sha_a-is_digest : is_digest sha_a ≡ true
unfolding is_digest matches digest_shape_re
sha_a-is_digest = refl

deleted-image :
    delete_image sample_objects sample_refs quiet repo_name sha_a two_images ≡ (one_image, none)
unfolding delete_image ref_for is_digest matches digest_shape_re validate_repository repository_re
    parse_digest cut sha256_hex_re resolve decode_ref delete_manifest delete_named delete_tags
    delete_tag delete_referrer delete_known delete_ref list_refs list_records read_meta same_image
    manifest_ref tag_ref referrer_ref lookup without listed has_prefix
deleted-image = refl

delete_image-tags_example :
    (root : Key) × (meta : ImageMeta) × (target sample_refs
        (manifest_ref repo_name sha_a)
        two_images
      ≡ some root)
    × (read_meta sample_objects root ≡ some meta)
    × IsOther sample_objects sample_refs sample_refs-RefLaws root meta root_b
delete_image-tags_example =
    delete_image-tags sample_objects sample_refs sample_refs-RefLaws quiet repo_name sha_a
      two_images one_image other_tag root_b sha_a-valid sha_a-is_digest deleted-image
      (unfold target decode_ref lookup tag_ref in refl)

delete_image-gone_example :
    (root : Key) × (meta : ImageMeta) × (target sample_refs
        (manifest_ref repo_name sha_a)
        two_images
      ≡ some root)
    × (read_meta sample_objects root ≡ some meta)
    × (target sample_refs (manifest_ref repo_name sha_a) one_image ≡ none)
    × Unreferred sample_objects sample_refs sample_refs-RefLaws repo_name meta.digest meta.subject
        one_image
delete_image-gone_example =
    delete_image-gone sample_objects sample_refs sample_refs-RefLaws quiet repo_name sha_a
      two_images one_image sha_a-valid sha_a-is_digest deleted-image

delete_image-kept_example : target sample_refs (tag_ref repo_name other_tag) one_image ≡ some root_b
unfolding target decode_ref lookup read_meta same_image manifest_ref tag_ref
delete_image-kept_example =
    delete_image-kept sample_objects sample_refs sample_refs-RefLaws quiet repo_name sha_a
      two_images one_image other_tag root_b root_a meta_a sha_a-valid sha_a-is_digest deleted-image
      refl refl refl
      (cc, record meta_a { digest = sha_b }, refl, λ e. absurd (cc (ap (λ x. bytes_eq x sha_b) e)))
