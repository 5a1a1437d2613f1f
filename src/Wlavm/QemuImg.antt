-- ===== src/Wlavm/QemuImg.antt =====
-- wlavm/prepare.go: how `Prepare` reads the output of `qemu-img info`.
use workload_agent.Prelude.{String, List, [], ◌∷◌, Option, none, some, str_eq, if◌then◌else◌}
use workload_agent.Prelude.Strings.{split, trim_space}
use workload_agent.Consts.{
  qemu_img_info_backing_file_field, qemu_img_info_virtual_size_field,
  qemu_img_info_file_format_field,
}

-- A loop over lines that keeps the value of one field: `old`, unless a line is `field: value`.
abbrev pub field_value : String → List String → String → String
field_value field (name ∷ value ∷ more) old = if str_eq name field then value else old
field_value field _ old = old

scan_lines : String → List String → String → String
scan_lines field [] old = old
scan_lines field (line ∷ lines) old =
    scan_lines field lines (field_value field (split (trim_space line) ": ") old)

-- The loops for the backing file and for the file format.
unfoldable pub scan_field : String → String → String → String
unfolding scan_lines
scan_field field output old = scan_lines field (split output "\n") old

-- What the loop over the VM disk's info sets.
pub record DiskInfo : Type 0 where
  pub image_path : String
  pub vm_virtual_size : String
  pub vm_virtual_format : String

-- `strings.Split(strings.Split(line, "(")[1], " ")[0]`, which panics on a line with no `(`.
abbrev first_word : List String → Option String
first_word [] = none
first_word (word ∷ more) = some word

abbrev pub second_part : List String → Option String
second_part (before ∷ after ∷ more) = first_word (split after " ")
second_part _ = none

abbrev with_size : DiskInfo → Option String → Option DiskInfo
with_size info none = none
with_size info (some size) = some (record info { vm_virtual_size = size })

abbrev pub disk_field : String → List String → DiskInfo → Option DiskInfo
disk_field line (name ∷ value ∷ more) info =
    if str_eq name qemu_img_info_backing_file_field
    then some (record info { image_path = value })
    else if str_eq name qemu_img_info_virtual_size_field
    then with_size info (second_part (split line "("))
    else if str_eq name qemu_img_info_file_format_field
    then some (record info { vm_virtual_format = value })
    else some info
disk_field line _ info = some info

scan_disk_lines : List String → Option DiskInfo → Option DiskInfo
scan_disk_lines lines none = none
scan_disk_lines [] (some info) = some info
scan_disk_lines (line ∷ lines) (some info) =
    scan_disk_lines lines (disk_field line (split (trim_space line) ": ") info)

-- The whole loop; `none` where it panics.
unfoldable pub scan_disk_info : String → DiskInfo → Option DiskInfo
unfolding scan_disk_lines
scan_disk_info output info = scan_disk_lines (split output "\n") (some info)
