-- ===== src/Driver/Descriptors.antt =====
-- The USB descriptors of apps/psp/driver/pspdl_driver_kernel.c and the structures that `start_func`
-- builds of them. Fields keep the names of the USB standard; a pointer is the place that it leads
-- to, with the index in `g_usbdata`.
use psp_dev_link.Base.{ℕ, ◌+◌, ◌*◌, List, [], ◌∷◌, Option, none, some, get_elem?}

pub record DeviceDescriptor : Type 0 where
  pub b_length : ℕ
  pub b_descriptor_type : ℕ
  pub bcd_usb : ℕ
  pub b_device_class : ℕ
  pub b_device_sub_class : ℕ
  pub b_device_protocol : ℕ
  pub b_max_packet_size : ℕ
  pub id_vendor : ℕ
  pub id_product : ℕ
  pub bcd_device : ℕ
  pub i_manufacturer : ℕ
  pub i_product : ℕ
  pub i_serial_number : ℕ
  pub b_num_configurations : ℕ

pub record ConfigDescriptor : Type 0 where
  pub b_length : ℕ
  pub b_descriptor_type : ℕ
  pub w_total_length : ℕ
  pub b_num_interfaces : ℕ
  pub b_configuration_value : ℕ
  pub i_configuration : ℕ
  pub bm_attributes : ℕ
  pub b_max_power : ℕ

pub record InterfaceDescriptor : Type 0 where
  pub b_length : ℕ
  pub b_descriptor_type : ℕ
  pub b_interface_number : ℕ
  pub b_alternate_setting : ℕ
  pub b_num_endpoints : ℕ
  pub b_interface_class : ℕ
  pub b_interface_sub_class : ℕ
  pub b_interface_protocol : ℕ
  pub i_interface : ℕ

pub record EndpointDescriptor : Type 0 where
  pub b_length : ℕ
  pub b_descriptor_type : ℕ
  pub b_endpoint_address : ℕ
  pub bm_attributes : ℕ
  pub w_max_packet_size : ℕ
  pub b_interval : ℕ

abbrev pub usb_vendor_id : ℕ
usb_vendor_id = 0xFFFF

abbrev pub usb_product_id : ℕ
usb_product_id = 0x0001

-- The numbers of the endpoint blocks, in `g_endp`.
abbrev pub endpoint_blocks : List ℕ
endpoint_blocks = 0 ∷ 1 ∷ 2 ∷ 3 ∷ []

-- An initialiser without field names.
abbrev pub endpdesc : ℕ → ℕ → ℕ → ℕ → ℕ → ℕ → EndpointDescriptor
endpdesc length type address attributes packet interval = record {
  b_length = length;
  b_descriptor_type = type;
  b_endpoint_address = address;
  bm_attributes = attributes;
  w_max_packet_size = packet;
  b_interval = interval;
}

abbrev pub devdesc_hi : DeviceDescriptor
devdesc_hi = record {
  b_length = 18;
  b_descriptor_type = 1;
  bcd_usb = 0x200;
  b_device_class = 0;
  b_device_sub_class = 0;
  b_device_protocol = 0;
  b_max_packet_size = 64;
  id_vendor = usb_vendor_id;
  id_product = usb_product_id;
  bcd_device = 0x100;
  i_manufacturer = 0;
  i_product = 0;
  i_serial_number = 0;
  b_num_configurations = 1;
}

abbrev pub confdesc_hi : ConfigDescriptor
confdesc_hi = record {
  b_length = 9;
  b_descriptor_type = 2;
  w_total_length = 9 + 9 + 3 * 7;
  b_num_interfaces = 1;
  b_configuration_value = 1;
  i_configuration = 0;
  bm_attributes = 0xC0;
  b_max_power = 0;
}

abbrev pub interdesc_hi : InterfaceDescriptor
interdesc_hi = record {
  b_length = 9;
  b_descriptor_type = 4;
  b_interface_number = 0;
  b_alternate_setting = 0;
  b_num_endpoints = 3;
  b_interface_class = 0xFF;
  b_interface_sub_class = 1;
  b_interface_protocol = 0xFF;
  i_interface = 0;
}

abbrev pub endpdesc_hi : List EndpointDescriptor
endpdesc_hi = endpdesc 7 5 0x81 2 512 0 ∷ endpdesc 7 5 0x02 2 512 0 ∷ endpdesc 7 5 0x83 2 512 0 ∷ []

abbrev pub devdesc_full : DeviceDescriptor
devdesc_full = record {
  b_length = 18;
  b_descriptor_type = 1;
  bcd_usb = 0x200;
  b_device_class = 0;
  b_device_sub_class = 0;
  b_device_protocol = 0;
  b_max_packet_size = 64;
  id_vendor = usb_vendor_id;
  id_product = usb_product_id;
  bcd_device = 0x100;
  i_manufacturer = 0;
  i_product = 0;
  i_serial_number = 0;
  b_num_configurations = 1;
}

abbrev pub confdesc_full : ConfigDescriptor
confdesc_full = record {
  b_length = 9;
  b_descriptor_type = 2;
  w_total_length = 9 + 9 + 3 * 7;
  b_num_interfaces = 1;
  b_configuration_value = 1;
  i_configuration = 0;
  bm_attributes = 0xC0;
  b_max_power = 0;
}

abbrev pub interdesc_full : InterfaceDescriptor
interdesc_full = record {
  b_length = 9;
  b_descriptor_type = 4;
  b_interface_number = 0;
  b_alternate_setting = 0;
  b_num_endpoints = 3;
  b_interface_class = 0xFF;
  b_interface_sub_class = 1;
  b_interface_protocol = 0xFF;
  i_interface = 0;
}

abbrev pub endpdesc_full : List EndpointDescriptor
endpdesc_full = endpdesc 7 5 0x81 2 64 0 ∷ endpdesc 7 5 0x02 2 64 0 ∷ endpdesc 7 5 0x83 2 64 0 ∷ []

-- A pointer into `g_usbdata[i]`, or NULL.
pub data Place : Type 0 where
  null : Place
  at_devdesc at_config at_confdesc at_interfaces at_interdesc at_endp : ℕ → Place

-- `struct UsbData`; a descriptor is absent while its bytes are zero.
pub record UsbData : Type 0 where
  pub devdesc_bytes : Option DeviceDescriptor
  pub config_pconfdesc : Place
  pub config_pinterfaces : Place
  pub config_pinterdesc : Place
  pub config_pendp : Place
  pub confdesc_bytes : Option ConfigDescriptor
  pub confdesc_pinterfaces : Place
  pub interfaces_pinterdesc : Place
  pub interfaces_intcount : ℕ
  pub interdesc_bytes : Option InterfaceDescriptor
  pub interdesc_pendp : Place
  pub endp_0 : Option EndpointDescriptor
  pub endp_1 : Option EndpointDescriptor
  pub endp_2 : Option EndpointDescriptor

-- After `memset`.
abbrev pub cleared : UsbData
cleared = record {
  devdesc_bytes = none;
  config_pconfdesc = Place.null;
  config_pinterfaces = Place.null;
  config_pinterdesc = Place.null;
  config_pendp = Place.null;
  confdesc_bytes = none;
  confdesc_pinterfaces = Place.null;
  interfaces_pinterdesc = Place.null;
  interfaces_intcount = 0;
  interdesc_bytes = none;
  interdesc_pendp = Place.null;
  endp_0 = none;
  endp_1 = none;
  endp_2 = none;
}

-- The assignments of `start_func` to `g_usbdata[0]`.
abbrev pub fill_hi : UsbData → UsbData
fill_hi u = record u {
  devdesc_bytes = some devdesc_hi;
  config_pconfdesc = Place.at_confdesc 0;
  config_pinterfaces = Place.at_interfaces 0;
  config_pinterdesc = Place.at_interdesc 0;
  config_pendp = Place.at_endp 0;
  confdesc_bytes = some confdesc_hi;
  confdesc_pinterfaces = Place.at_interfaces 0;
  interfaces_pinterdesc = Place.at_interdesc 0;
  interfaces_intcount = 1;
  interdesc_bytes = some interdesc_hi;
  interdesc_pendp = Place.at_endp 0;
  endp_0 = get_elem? endpdesc_hi 0;
  endp_1 = get_elem? endpdesc_hi 1;
  endp_2 = get_elem? endpdesc_hi 2;
}

-- Those to `g_usbdata[1]`.
abbrev pub fill_full : UsbData → UsbData
fill_full u = record u {
  devdesc_bytes = some devdesc_full;
  config_pconfdesc = Place.at_confdesc 1;
  config_pinterfaces = Place.at_interfaces 1;
  config_pinterdesc = Place.at_interdesc 1;
  config_pendp = Place.at_endp 1;
  confdesc_bytes = some confdesc_full;
  confdesc_pinterfaces = Place.at_interfaces 1;
  interfaces_pinterdesc = Place.at_interdesc 1;
  interfaces_intcount = 1;
  interdesc_bytes = some interdesc_full;
  interdesc_pendp = Place.at_endp 1;
  endp_0 = get_elem? endpdesc_full 0;
  endp_1 = get_elem? endpdesc_full 1;
  endp_2 = get_elem? endpdesc_full 2;
}

-- The part of `g_usb_driver` that `start_func` sets, and its number of endpoint blocks.
pub record UsbDriver : Type 0 where
  pub endpoints : ℕ
  pub devp_hi : Place
  pub confp_hi : Place
  pub devp : Place
  pub confp : Place

abbrev pub unset_driver : UsbDriver
unset_driver = record {
  endpoints = 4;
  devp_hi = Place.null;
  confp_hi = Place.null;
  devp = Place.null;
  confp = Place.null;
}

abbrev pub set_pointers : UsbDriver → UsbDriver
set_pointers u = record u {
  devp_hi = Place.at_devdesc 0;
  confp_hi = Place.at_config 0;
  devp = Place.at_devdesc 1;
  confp = Place.at_config 1;
}
