-- ===== src/HotRing.antt =====
-- hotring/: a hash table whose buckets are rings. The modules follow the functions of hotring.c.
pub mod State
pub mod Table
pub mod Get
pub mod Create
pub mod Delete
pub mod Rehash
pub mod Hotspot
pub mod Iterate
pub mod Order
pub mod Ring
pub mod Valid
pub mod Amounts
pub mod Lookup
pub mod Count
pub mod Change
pub mod Still
pub mod Access
pub mod Request
pub mod Cut
pub mod Removal
pub mod Removed
pub mod Dropped
pub mod RoundTrip
pub mod Fresh
pub mod Range
pub mod Frame
pub mod Place
pub mod Insert
pub mod Growth
pub mod Grown
pub mod Founded
pub mod Adding
pub mod Rotate
pub mod Resets
pub mod Coldest
pub mod Turned
pub mod Shifted
pub mod Once
pub mod Settled
pub mod Reach
