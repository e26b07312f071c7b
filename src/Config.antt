-- ===== src/Config.antt =====
-- include/config.h, include/const.h and config.cpp: the process-wide configuration and the protocol constants.
use ospf_lite.Base.{ℕ, ℤ, is_neg, htonl, if◌then◌else◌}

pub record GlobalConfig : Type 0 where
  pub ip : ℕ
  pub ip_interface_mask : ℕ
  pub router_id : ℕ
  pub hello_interval : ℕ
  pub dead_interval : ℕ
  pub wait_interval : ℕ
  pub ospf_options : ℕ
  pub ls_sequence_cnt : ℕ

abbrev pub max_age : ℕ
max_age = 3600

abbrev pub max_age_diff : ℕ
max_age_diff = 900

abbrev pub initial_sequence_number : ℕ
initial_sequence_number = 0x80000001

abbrev pub max_sequence_number : ℕ
max_sequence_number = 0x7fffffff

-- What `config_init` of main.cpp sets, on the interface address and mask that the system gives.
unfoldable pub config_init : ℕ → ℕ → GlobalConfig
config_init ip mask = record {
  ip = ip;
  ip_interface_mask = mask;
  router_id = 0x08080808;
  hello_interval = 10;
  dead_interval = 40;
  wait_interval = 40;
  ospf_options = 2;
  ls_sequence_cnt = initial_sequence_number;
}

-- What the system answers when it is asked for the address or the mask of a network card.
pub record Answer : Type 0 where
  pub socket : ℤ
  pub ioctl : ℤ
  pub s_addr : ℕ

-- On an error the functions return -1 as a uint32_t.
unfoldable pub get_ip_address : Answer → ℕ
get_ip_address a =
    if is_neg a.socket then 4294967295 else if is_neg a.ioctl then 4294967295 else htonl a.s_addr

-- The same text with the request for the mask.
unfoldable pub get_network_mask : Answer → ℕ
get_network_mask a =
    if is_neg a.socket then 4294967295 else if is_neg a.ioctl then 4294967295 else htonl a.s_addr
