-- ===== src/Driver/Enumeration.antt =====
-- What a USB host finds when it enumerates the device of apps/psp/driver/pspdl_driver_kernel.c: the
-- pointers of `g_usb_driver` are followed to the descriptors.
use psp_dev_link.Base.{
  ℕ, zero, suc, ◌+◌, ◌≡◌, List, [], ◌∷◌, Option, none, some, ◌>>=◌, length, Bool, true, false, leb,
  ◌%◌,
}
use psp_dev_link.Driver.{Driver}
use psp_dev_link.Driver.Descriptors.{
  DeviceDescriptor, ConfigDescriptor, InterfaceDescriptor, EndpointDescriptor, UsbData, Place,
  usb_vendor_id, usb_product_id,
}

pub data Speed : Type 0 where
  hi full : Speed

-- What the standard allows a bulk endpoint to carry in a packet.
abbrev pub bulk_packet : Speed → ℕ
bulk_packet Speed.hi = 512
bulk_packet Speed.full = 64

-- `g_usbdata[i]`; only two elements exist.
abbrev pub data_at : Driver → ℕ → Option UsbData
data_at d zero = some d.data_hi
data_at d (suc zero) = some d.data_full
data_at d (suc (suc i)) = none

-- The element that a pointer of each kind leads into.
abbrev pub devdesc_place : Place → Option ℕ
devdesc_place (Place.at_devdesc i) = some i
devdesc_place _ = none

abbrev pub config_place : Place → Option ℕ
config_place (Place.at_config i) = some i
config_place _ = none

abbrev pub confdesc_place : Place → Option ℕ
confdesc_place (Place.at_confdesc i) = some i
confdesc_place _ = none

abbrev pub interfaces_place : Place → Option ℕ
interfaces_place (Place.at_interfaces i) = some i
interfaces_place _ = none

abbrev pub interdesc_place : Place → Option ℕ
interdesc_place (Place.at_interdesc i) = some i
interdesc_place _ = none

abbrev pub endp_place : Place → Option ℕ
endp_place (Place.at_endp i) = some i
endp_place _ = none

abbrev pub device_pointer : Driver → Speed → Place
device_pointer d Speed.hi = d.usb_driver.devp_hi
device_pointer d Speed.full = d.usb_driver.devp

abbrev pub config_pointer : Driver → Speed → Place
config_pointer d Speed.hi = d.usb_driver.confp_hi
config_pointer d Speed.full = d.usb_driver.confp

pub record Enumerated : Type 0 where
  pub device : DeviceDescriptor
  pub config : ConfigDescriptor
  pub interface_count : ℕ
  pub inter : InterfaceDescriptor
  pub endpoints : List EndpointDescriptor

abbrev pub endpoints_at : UsbData → Option (List EndpointDescriptor)
endpoints_at u = do
  first ← u.endp_0
  second ← u.endp_1
  third ← u.endp_2
  some (first ∷ second ∷ third ∷ [])

-- By the pointers from one structure to the next.
abbrev pub enumerate : Driver → Speed → Option Enumerated
enumerate d speed = do
  dev ← devdesc_place (device_pointer d speed) >>= data_at d
  device ← dev.devdesc_bytes
  conf ← config_place (config_pointer d speed) >>= data_at d
  described ← confdesc_place conf.config_pconfdesc >>= data_at d
  config ← described.confdesc_bytes
  listed ← interfaces_place described.confdesc_pinterfaces >>= data_at d
  itself ← interdesc_place listed.interfaces_pinterdesc >>= data_at d
  inter ← itself.interdesc_bytes
  ends ← endp_place itself.interdesc_pendp >>= data_at d
  endpoints ← endpoints_at ends
  some (record {
    device = device;
    config = config;
    interface_count = listed.interfaces_intcount;
    inter = inter;
    endpoints = endpoints;
  })

-- By the pointers that the configuration has besides: to the interfaces, the interface and its
-- endpoints.
abbrev pub config_shortcuts :
    Driver → Speed → Option (ℕ × InterfaceDescriptor × List EndpointDescriptor)
config_shortcuts d speed = do
  conf ← config_place (config_pointer d speed) >>= data_at d
  listed ← interfaces_place conf.config_pinterfaces >>= data_at d
  itself ← interdesc_place conf.config_pinterdesc >>= data_at d
  inter ← itself.interdesc_bytes
  ends ← endp_place conf.config_pendp >>= data_at d
  endpoints ← endpoints_at ends
  some (listed.interfaces_intcount, inter, endpoints)

-- Bulk endpoints of this packet size: the number, the address without its direction bit, counts up
-- from `k`, and the direction is to the host for all but the second.
pub record IsBulk (packet k : ℕ) (e : EndpointDescriptor) : Type 0 where
  pub header : (e.b_length ≡ 7) × (e.b_descriptor_type ≡ 5)
  pub bulk : e.bm_attributes ≡ 2
  pub fits : e.w_max_packet_size ≡ packet
  pub number : e.b_endpoint_address % 128 ≡ k

abbrev pub AreBulk : ℕ → ℕ → List EndpointDescriptor → Type 0
AreBulk packet k [] = Unit
AreBulk packet k (e ∷ es) = IsBulk packet k e × AreBulk packet (suc k) es

-- Whether each endpoint carries data to the host.
abbrev pub directions : List EndpointDescriptor → List Bool
directions [] = []
directions (e ∷ es) = leb 128 e.b_endpoint_address ∷ directions es

abbrev pub endpoint_lengths : List EndpointDescriptor → ℕ
endpoint_lengths [] = 0
endpoint_lengths (e ∷ es) = e.b_length + endpoint_lengths es

-- What the USB 2.0 standard asks of the descriptors of a device at one speed, and what this one has
-- to be: the host's product, with an endpoint to the host, one from it, and a third to it, one for
-- each of the driver's blocks but that of the control endpoint.
pub record IsStandard (speed : Speed) (blocks : ℕ) (e : Enumerated) : Type 0 where
  pub device_header : (e.device.b_length ≡ 18) × (e.device.b_descriptor_type ≡ 1)
  pub product : (e.device.id_vendor ≡ usb_vendor_id) × (e.device.id_product ≡ usb_product_id)
  pub one_config : (e.device.b_num_configurations ≡ 1) × (e.config.b_configuration_value ≡ 1)
  pub config_header : (e.config.b_length ≡ 9) × (e.config.b_descriptor_type ≡ 2)
  pub interface_header : (e.inter.b_length ≡ 9) × (e.inter.b_descriptor_type ≡ 4)
  pub total :
      e.config.w_total_length ≡ e.config.b_length + e.inter.b_length + endpoint_lengths e.endpoints
  pub interfaces : e.config.b_num_interfaces ≡ e.interface_count
  pub interface_number : suc e.inter.b_interface_number ≡ e.interface_count
  pub endpoint_count : e.inter.b_num_endpoints ≡ length e.endpoints
  pub block_count : suc (length e.endpoints) ≡ blocks
  pub endpoints_bulk : AreBulk (bulk_packet speed) 1 e.endpoints
  pub endpoint_directions : directions e.endpoints ≡ true ∷ false ∷ true ∷ []

-- What an enumeration at one speed gives.
pub record Enumerates (speed : Speed) (d : Driver) : Type 0 where
  pub found : Enumerated
  pub follows : enumerate d speed ≡ some found
  pub agrees : config_shortcuts d speed ≡ some (found.interface_count, found.inter, found.endpoints)
  pub standard : IsStandard speed d.usb_driver.endpoints found
