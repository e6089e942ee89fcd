-- ===== src/Format/Tests.antt =====
-- The theorems about the text codec at concrete formats.
use ipfs_content.Prelude.{◌≡◌, none}
use ipfs_content.Format.{tar_gz, marshal_text, unmarshal_text}
use ipfs_content.Format.Text.{unmarshal_text-marshal_text}

unmarshal_text-marshal_text_example : unmarshal_text (marshal_text tar_gz) ≡ (tar_gz, none)
unmarshal_text-marshal_text_example = unmarshal_text-marshal_text tar_gz tt
