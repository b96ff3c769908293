-- ===== src/Scaling.antt =====
-- scenes/_scaling.py: the scaling and output data type of the bands of a raster request.
pub mod Number
pub mod Text
pub mod DataType
pub mod Band
pub mod Output
pub mod Parse
pub mod Modes
pub mod Parameters
pub mod Products
pub mod Casts
pub mod Lengths
pub mod SingleProduct
pub mod Agreed
pub mod Made
pub mod GdalScales
pub mod AllMade
pub mod Returned
pub mod Extremes
pub mod Holding
pub mod ImpliedType
