-- ===== src/Drivers/Device/Types.antt =====
-- kernel/drivers/device.h, and the state of device.c. Devices, drivers and requests are stores by
-- address. The two global lists and the request queues, which the C code threads through the
-- fields `next`, are lists of addresses. An enum is the number that C gives it.
use fg_os.Base.{ℕ, ◌==◌, Bool, true, false, List, if◌then◌else◌}
use fg_os.Base.Int.{ℤ, pos, negsuc}

abbrev pub device_type_max : ℕ
device_type_max = 15

abbrev pub device_state_unknown : ℕ
device_state_unknown = 0

abbrev pub device_state_initializing : ℕ
device_state_initializing = 1

abbrev pub device_state_ready : ℕ
device_state_ready = 2

abbrev pub device_state_busy : ℕ
device_state_busy = 3

abbrev pub device_state_error : ℕ
device_state_error = 4

abbrev pub device_state_suspended : ℕ
device_state_suspended = 5

abbrev pub device_state_removed : ℕ
device_state_removed = 6

abbrev pub device_state_max : ℕ
device_state_max = 7

abbrev pub device_cap_suspend : ℕ
device_cap_suspend = 64

-- The kinds of request that device.c tells apart; any other number is a kind that it refuses.
abbrev pub device_io_read : ℕ
device_io_read = 0

abbrev pub device_io_write : ℕ
device_io_write = 1

abbrev pub device_io_control : ℕ
device_io_control = 2

pub data IoStatus : Type 0 where
  pending success error timeout cancelled : IoStatus

abbrev pub is_pending : IoStatus → Bool
is_pending pending = true
is_pending _ = false

abbrev pub is_success : IoStatus → Bool
is_success success = true
is_success _ = false

abbrev pub is_timeout : IoStatus → Bool
is_timeout timeout = true
is_timeout _ = false

-- The error numbers that device.c names. No header of the kernel gives their values, which are
-- taken to be none of them 0.
pub data Errno : Type 0 where
  enotinit einval eexist ebusy enoent enosys enodev enomem eio : Errno

-- The int that a function answers: a negated error number of device.c, or any other int, such as 0
-- or what an operation of a driver answered.
pub data Code : Type 0 where
  value : ℤ → Code
  failed : Errno → Code

abbrev pub ok : Code
ok = value (pos 0)

abbrev pub is_zero : ℤ → Bool
is_zero (pos n) = n == 0
is_zero (negsuc n) = false

abbrev pub is_ok : Code → Bool
is_ok (value i) = is_zero i
is_ok (failed e) = false

-- The entries of device_driver_ops_t.
pub data Op : Type 0 where
  probe init start stop reset suspend resume remove read write ioctl interrupt_handler : Op

pub record Request : Type 0 where
  pub request_id : ℕ
  pub kind : ℕ
  pub status : IoStatus
  pub device : ℕ
  pub offset : ℕ
  pub buffer : ℕ
  pub size : ℕ
  pub flags : ℕ
  pub timestamp : ℕ
  pub private_data : ℕ
  pub callback : ℕ

pub record DeviceStats : Type 0 where
  pub requests_total : ℕ
  pub requests_read : ℕ
  pub requests_write : ℕ
  pub requests_control : ℕ
  pub requests_successful : ℕ
  pub requests_failed : ℕ
  pub requests_timeout : ℕ
  pub bytes_read : ℕ
  pub bytes_written : ℕ
  pub interrupts_received : ℕ
  pub errors_total : ℕ
  pub uptime_ms : ℕ
  pub avg_request_time_us : ℕ
  pub max_request_time_us : ℕ

abbrev pub no_stats : DeviceStats
no_stats = record {
  requests_total = 0;
  requests_read = 0;
  requests_write = 0;
  requests_control = 0;
  requests_successful = 0;
  requests_failed = 0;
  requests_timeout = 0;
  bytes_read = 0;
  bytes_written = 0;
  interrupts_received = 0;
  errors_total = 0;
  uptime_ms = 0;
  avg_request_time_us = 0;
  max_request_time_us = 0;
}

-- `ops` tells which pointers of the table are not NULL. A name is its bytes up to the NUL. The
-- fields that device.c neither reads nor writes are left out.
pub record Driver : Type 0 where
  pub name : List ℕ
  pub version : List ℕ
  pub ops : Op → Bool
  pub reference_count : ℕ
  pub loaded : Bool

-- `kind` is the field `type`, `name` is info.name and `timeout_ms` is config.timeout_ms.
pub record Device : Type 0 where
  pub device_id : ℕ
  pub kind : ℕ
  pub state : ℕ
  pub capabilities : ℕ
  pub name : List ℕ
  pub timeout_ms : ℕ
  pub stats : DeviceStats
  pub driver : ℕ
  pub request_queue : List ℕ
  pub created_time : ℕ
  pub last_access_time : ℕ
  pub registered : Bool

pub record ManagerStats : Type 0 where
  pub total_devices : ℕ
  pub active_devices : ℕ
  pub failed_devices : ℕ
  pub suspended_devices : ℕ
  pub total_drivers : ℕ
  pub active_drivers : ℕ
  pub total_requests : ℕ
  pub pending_requests : ℕ
  pub completed_requests : ℕ
  pub failed_requests : ℕ
  pub devices_by_type : ℕ → ℕ

-- device_manager, the structures that it points to, and the readings of the clock so far. A request
-- whose memory has been given back is not `allocated`.
pub record Manager : Type 0 where
  pub device_list : List ℕ
  pub driver_list : List ℕ
  pub stats : ManagerStats
  pub next_device_id : ℕ
  pub next_request_id : ℕ
  pub initialized : Bool
  pub devices : ℕ → Device
  pub drivers : ℕ → Driver
  pub requests : ℕ → Request
  pub allocated : ℕ → Bool
  pub readings : ℕ

-- What the code calls and does not contain: get_system_time_ms, whose n-th reading is `clock n`;
-- the operation of a driver, at the driver, the device and up to two more arguments; and the
-- completion callback of a request.
pub record Env : Type 0 where
  pub clock : ℕ → ℕ
  pub call : Op → (driver device a b : ℕ) → Manager → ℤ × Manager
  pub notify : (callback request : ℕ) → Manager → Manager

abbrev pub set_device : ℕ → Device → Manager → Manager
set_device p d m = record m { devices = λ q. if p == q then d else m.devices q }

abbrev pub set_driver : ℕ → Driver → Manager → Manager
set_driver p d m = record m { drivers = λ q. if p == q then d else m.drivers q }

abbrev pub set_request : ℕ → Request → Manager → Manager
set_request p r m = record m { requests = λ q. if p == q then r else m.requests q }

abbrev set_stats : ManagerStats → Manager → Manager
set_stats t m = record m { stats = t }

-- device->driver && device->driver->ops.op
abbrev pub supports : Op → (device : ℕ) → Manager → Bool
supports op device m =
    if (m.devices device).driver == 0 then false else (m.drivers (m.devices device).driver).ops op
