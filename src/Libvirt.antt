-- ===== src/Libvirt.antt =====
-- libvirt/parse_domain_xml.go: the values that the agent takes from a domain's XML.
use workload_agent.Prelude.{String, str_eq, if◌then◌else◌}
use workload_agent.Prelude.Int.{ℤ}
use workload_agent.Types.{Result, ok, err, Domain}
use workload_agent.World.{Env, xml_unmarshal}
use workload_agent.World.Go.{Func, ◌>>=◌, return, body, invoke, value_or}

pub data QemuIntercept : Type 0 where
  none prepare start stop : QemuIntercept

pub record DomainParser : Type 0 where
  pub xml : String
  pub qemu_intercept_call : QemuIntercept
  pub vm_uuid : String
  pub vm_path : String
  pub image_uuid : String
  pub image_path : String
  pub size : ℤ

-- The image's path: read for `Prepare` and `Start` only, from `file` or else from `dev`.
abbrev pub image_path_of : QemuIntercept → Domain → String
image_path_of none domain = ""
image_path_of prepare domain =
    if str_eq domain.backing_store_source.file ""
    then domain.backing_store_source.dev
    else domain.backing_store_source.file
image_path_of start domain =
    if str_eq domain.backing_store_source.file ""
    then domain.backing_store_source.dev
    else domain.backing_store_source.file
image_path_of stop domain = ""

-- The parser that a decoded domain gives.
unfoldable pub domain_parser : String → QemuIntercept → Domain → DomainParser
domain_parser domain_xml intercept domain = record {
  xml = domain_xml;
  qemu_intercept_call = intercept;
  vm_uuid = domain.uuid;
  vm_path = domain.source.file;
  image_uuid = domain.root.uuid;
  image_path = image_path_of intercept domain;
  size = domain.disk;
}

-- `NewDomainParser`
unfoldable pub new_domain_parser : Env → String → QemuIntercept → Func (Result DomainParser)
new_domain_parser env domain_xml intercept = body do
  unmarshalled ← invoke env (xml_unmarshal domain_xml)
  domain ← value_or unmarshalled λ e. err e
  return (ok (domain_parser domain_xml intercept domain))

abbrev pub get_vm_uuid : DomainParser → String
get_vm_uuid d = d.vm_uuid

abbrev pub get_vm_path : DomainParser → String
get_vm_path d = d.vm_path

abbrev pub get_image_uuid : DomainParser → String
get_image_uuid d = d.image_uuid

abbrev pub get_image_path : DomainParser → String
get_image_path d = d.image_path

abbrev pub get_disk_size : DomainParser → ℤ
get_disk_size d = d.size
